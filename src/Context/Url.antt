-- ===== src/Context/Url.antt =====
-- src/core/context/lib/Url.js. A text is its list of code points here; which of them beyond ASCII are
-- letters, numbers and marks is the parameter `is_letter` (the Unicode tables of the host).
use canvas_server.Prelude.{
  ℕ, ◌+◌, Bool, false, ◌||◌, ◌&&◌, not, Option, none, some, List, [], ◌∷◌, ◌++◌, map, any, keep,
  nat_eq, leb, ltb, Text, codes, text_eq, is_digit, split, starts_with, strip_prefix, trim,
  lower_ascii, length, if◌then◌else◌,
}
use canvas_server.Gate.Clamp.{drop_slash}

pub record ParsedUrl : Type 0 where
  pub url : Text
  pub workspace_name : Option Text
  pub path : Text
  pub path_array : List Text

-- The characters that `validate` rejects.
abbrev pub is_bad : ℕ → Bool
is_bad c = any (nat_eq c) (codes "`'\"<>{}[]")

-- `validate`: the error is false
unfoldable pub is_valid : Text → Bool
is_valid [] = false
is_valid (c ∷ s) = not (any is_bad (c ∷ s))

abbrev is_ascii_letter : ℕ → Bool
is_ascii_letter c = (leb b'a' c && leb c b'z') || (leb b'A' c && leb c b'Z')

-- [a-zA-Z0-9_-]
abbrev pub is_word : ℕ → Bool
is_word c = is_ascii_letter c || is_digit c || nat_eq c b'_' || nat_eq c b'-'

-- [a-zA-Z0-9._-]
abbrev pub is_host : ℕ → Bool
is_host c = is_word c || nat_eq c b'.'

-- [a-zA-Z0-9_.@-]
abbrev pub is_reference : ℕ → Bool
is_reference c = is_host c || nat_eq c b'@'

abbrev slashed : ℕ → ℕ
slashed c = if nat_eq c b'\\' then b'/' else c

-- How often "://" occurs.
unfoldable pub protocols : Text → ℕ
protocols [] = 0
protocols (c ∷ s) = (if starts_with (codes "://") (c ∷ s) then 1 else 0) + protocols s

-- What is before and after the first "://".
unfoldable pub cut_protocol : Text → Option (Text × Text)
cut_protocol [] = none
cut_protocol (c ∷ s) = elim (strip_prefix (codes "://") (c ∷ s)) [
  | some rest ↦ some ([], rest)
  | none ↦ elim (cut_protocol s) [ none ↦ none | some (w, rest) ↦ some (c ∷ w, rest) ]
]

-- What is before and after the last '@'.
unfoldable pub cut_at : Text → Option (Text × Text)
cut_at [] = none
cut_at (c ∷ s) = elim (cut_at s) [
  | some (w, rest) ↦ some (c ∷ w, rest)
  | none ↦ if nat_eq c b'@' then some ([], s) else none
]

-- The workspace part of an URL, cleaned.
unfoldable pub clean_workspace : Text → Text
clean_workspace w = elim (cut_at w) [
  | none ↦ map lower_ascii (keep is_word w)
  | some ([], host) ↦ map lower_ascii (keep is_word w)
  | some (c ∷ name, host) ↦ map lower_ascii (keep is_word (c ∷ name) ++ b'@' ∷ keep is_host host)
]

-- Runs of slashes become one.
unfoldable pub collapse : Text → Text
collapse [] = []
collapse (c ∷ s) =
    let rest = collapse s in
    if nat_eq c b'/' && starts_with (b'/' ∷ []) rest then rest else c ∷ rest

abbrev is_line_end : ℕ → Bool
is_line_end c = nat_eq c 10 || nat_eq c 13 || nat_eq c 0x2028 || nat_eq c 0x2029

-- The longest prefix of characters of a workspace reference, and the rest.
unfoldable pub span_reference : Text → Text × Text
span_reference [] = ([], [])
span_reference (c ∷ s) =
    let (w, rest) = span_reference s in if is_reference c then (c ∷ w, rest) else ([], c ∷ s)

-- The match of /^([a-zA-Z0-9_.@-]+):\/\/(.*)$/, as its two groups.
unfoldable pub match_workspace : Text → Option (Text × Text)
match_workspace url = elim ((span_reference url).0) [
  | [] ↦ none
  | c ∷ w ↦ elim (strip_prefix (codes "://") (span_reference url).1) [
    | none ↦ none
    | some rest ↦ if any is_line_end rest then none else some (c ∷ w, rest)
  ]
]

-- A path with its slash in front and without one at its end.
unfoldable pub shaped : Text → Text
shaped p =
    let path = if starts_with (b'/' ∷ []) p then p else b'/' ∷ p in
    if ltb 1 (length path) then drop_slash path else path

abbrev pub workspace_of : Option (Text × Text) → Option Text
workspace_of none = none
workspace_of (some (w, rest)) = some w

-- `parsePath`
unfoldable pub path_of : Text → Option (Text × Text) → Text
path_of url none = shaped url
path_of url (some (w, rest)) = if text_eq rest [] then b'/' ∷ [] else shaped rest

abbrev pub without_slash : Text → Text
without_slash [] = []
without_slash (c ∷ s) = if nat_eq c b'/' then s else c ∷ s

-- `formatUrl`
unfoldable pub format_url : Option Text → Text → Text
format_url none path = path
format_url (some w) path = if text_eq w [] then path else w ++ codes "://" ++ without_slash path

-- `path.split('/').filter(...)`
abbrev pub segments_of : Text → List Text
segments_of path = keep (λ s. not (text_eq s [])) (split b'/' path)

module _ (is_letter : ℕ → Bool) where
  abbrev is_path_char : ℕ → Bool
  is_path_char c = is_letter c || any (nat_eq c) (codes "/ .+_@-")

  -- `cleanPath`; once slashes are collapsed there is at most one at either end
  unfoldable pub clean_path : Text → Text
  clean_path path =
      let cleaned = collapse (keep is_path_char path) in
      if text_eq cleaned [] || text_eq cleaned (b'/' ∷ []) then [] else drop_slash cleaned

  -- `cleanUrl`; none is the error
  unfoldable pub clean_url : Text → Option Text
  clean_url url =
      let cleaned = map slashed (trim url) in
      if ltb 1 (protocols cleaned) then none else elim (cut_protocol cleaned) [
        | none ↦ some (clean_path cleaned)
        | some (w, p) ↦
            if text_eq (clean_workspace w) []
            then none
            else some (clean_workspace w ++ codes "://" ++ clean_path p)
      ]

  abbrev parsed_of : Text → Option (Text × Text) → ParsedUrl
  parsed_of url groups = record {
    url = format_url (workspace_of groups) (path_of url groups);
    workspace_name = workspace_of groups;
    path = path_of url groups;
    path_array = segments_of (path_of url groups);
  }

  -- The constructor and `setUrl`: the URL, or the error that leaves it invalid.
  unfoldable pub parse_url : Text → Option ParsedUrl
  parse_url url = if not (is_valid url) then none else elim (clean_url url) [
    | none ↦ none
    | some cleaned ↦ some (parsed_of cleaned (match_workspace cleaned))
  ]
