-- ===== src/Hooks/Keys.antt =====
-- src/core/workspace/services/hook/key-utils.js and naming.js: storage keys and the names of hook files.
pub mod Inside
mod Tests
use canvas_server.Prelude.{
  ℕ, zero, suc, Bool, true, false, not, ◌||◌, ◌&&◌, Option, none, some, List, [], ◌∷◌, ◌++◌, Text,
  codes, text_eq, nat_eq, leb, any, keep, or_else, trim, is_space, split, starts_with, strip_prefix,
  is_some, if◌then◌else◌,
}
use mathlib.Core.List.{reverse}
use canvas_server.Workspaces.References.{join}

-- [\\/:*?"<>|\x00-\x1f]
abbrev pub is_reserved : ℕ → Bool
is_reserved c = any (nat_eq c) (codes "\\/:*?\"<>|") || leb c 0x1f

-- [\s.-]
abbrev pub is_edge : ℕ → Bool
is_edge c = is_space c || nat_eq c b'.' || nat_eq c b'-'

-- Each run of characters with `p` becomes one `r`; `run` says that the text before is one.
unfoldable pub squeeze : (ℕ → Bool) → ℕ → Bool → Text → Text
squeeze p r run [] = []
squeeze p r run (c ∷ s) =
    let rest = squeeze p r (p c) s in if p c then (if run then rest else r ∷ rest) else c ∷ rest

unfoldable pub drop_edge : Text → Text
drop_edge [] = []
drop_edge (c ∷ s) = let rest = drop_edge s in if is_edge c then rest else c ∷ s

-- `.replace(/^[\s.-]+|[\s.-]+$/g, '')`
abbrev pub without_edges : Text → Text
without_edges s = reverse (drop_edge (reverse (drop_edge s)))

-- `.slice(0, n)`
unfoldable pub take : ℕ → Text → Text
take zero s = []
take (suc n) [] = []
take (suc n) (c ∷ s) = c ∷ take n s

unfoldable pub cleaned_segment : Text → Text
cleaned_segment value =
    trim (
      take 120 (without_edges (squeeze is_space b' ' false (squeeze is_reserved b'-' false value))))

-- `sanitizeSegment`
unfoldable pub sanitize_segment : Option Text → Text → Text
sanitize_segment value fallback =
    let cleaned = cleaned_segment (or_else value []) in
    if text_eq cleaned [] then fallback else cleaned

abbrev pub slashed : ℕ → ℕ
slashed c = if nat_eq c b'\\' then b'/' else c

abbrev pub slashed_text : Text → Text
slashed_text [] = []
slashed_text (c ∷ s) = slashed c ∷ slashed_text s

-- `!seg || seg === '.' || seg === '..'`
abbrev pub is_dropped : Text → Bool
is_dropped s = text_eq s [] || text_eq s (codes ".") || text_eq s (codes "..")

-- The segments of one part: at a run of separators there are only empty ones more.
abbrev pub segments_of : Text → List Text
segments_of part = keep (λ s. not (is_dropped s)) (split b'/' (slashed_text part))

unfoldable pub key_segments : List (Option Text) → List Text
key_segments [] = []
key_segments (none ∷ parts) = key_segments parts
key_segments (some part ∷ parts) = segments_of part ++ key_segments parts

-- `joinKey`
unfoldable pub join_key : List (Option Text) → Text
join_key parts = join b'/' (key_segments parts)

-- `DISABLED_PREFIXES`
abbrev pub disabled_prefixes : List Text
disabled_prefixes = codes "example-" ∷ codes "disabled-" ∷ codes "_" ∷ []

-- `isDisabledFile`
unfoldable pub is_disabled_file : Text → Bool
is_disabled_file name = any (λ p. starts_with p name) disabled_prefixes

unfoldable pub without_prefix : List Text → Text → Text
without_prefix [] name = name
without_prefix (p ∷ prefixes) name = elim (strip_prefix p name) [
  | some rest ↦ rest
  | none ↦ without_prefix prefixes name
]

-- `enabledName`
unfoldable pub enabled_name : Text → Text
enabled_name name = without_prefix disabled_prefixes name

-- `disabledName`
unfoldable pub disabled_name : Text → Text
disabled_name name = if is_disabled_file name then name else codes "disabled-" ++ name
