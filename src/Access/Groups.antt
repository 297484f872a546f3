-- ===== src/Access/Groups.antt =====
-- Group names of src/core/workspace/lib/access.js, with the aliases of a directory's DN.
pub mod Laws
use canvas_server.Prelude.{
  Bool, true, false, ◌&&◌, Option, none, some, List, [], ◌∷◌, Text, codes, text_eq, or_else, nat_eq,
  any, is_space, trim, trim_start, strip_prefix, if◌then◌else◌, Casing, folded,
}

-- `[^,]+`, as far as it goes
unfoldable pub until_comma : Text → Text
until_comma [] = []
until_comma (c ∷ s) = let rest = until_comma s in if nat_eq c b',' then [] else c ∷ rest

-- `(?:cn|ou|uid)` at the start, and what follows it
attribute : Text → Option Text
attribute s = elim (strip_prefix (codes "cn") s) [
  | some rest ↦ some rest
  | none ↦ elim (strip_prefix (codes "ou") s) [
    | some rest ↦ some rest
    | none ↦ strip_prefix (codes "uid") s
  ]
]

-- `\s*([^,]+)` after the equals sign, trimmed. Where only white space stands before the comma, the
-- pattern gives one space back to the group, and the trimmed value is empty.
value_of : Bool → Text → Option Text
value_of spaced [] = if spaced then some [] else none
value_of spaced (d ∷ v) = some (trim (d ∷ v))

rdn_value : Text → Option Text
unfolding value_of
rdn_value [] = none
rdn_value (c ∷ s) = value_of (is_space c) (until_comma (trim_start (c ∷ s)))

-- `\s*=` and the value
after_attribute : Text → Option Text
unfolding rdn_value
after_attribute [] = none
after_attribute (c ∷ s) = if nat_eq c b'=' then rdn_value s else none

-- The value of the first RDN, by `/^\s*(?:cn|ou|uid)\s*=\s*([^,]+)/i` on a lower-case text.
unfoldable pub first_rdn : Text → Option Text
unfolding attribute after_attribute
first_rdn s = elim (attribute (trim_start s)) [
  | none ↦ none
  | some rest ↦ after_attribute (trim_start rest)
]

aliases_of : Text → List Text
aliases_of [] = []
aliases_of (c ∷ s) = elim (first_rdn (c ∷ s)) [ none ↦ (c ∷ s) ∷ [] | some v ↦ (c ∷ s) ∷ v ∷ [] ]

-- `b.includes(x)`
abbrev pub among : List Text → Text → Bool
among ys x = any (λ y. text_eq y x) ys

module _ (u : Casing) where
  -- `groupAliases`
  unfoldable pub group_aliases : Option Text → List Text
  unfolding aliases_of
  group_aliases group = aliases_of (folded u (or_else group []))

  -- `groupMatches`; its test on empty alias lists is that of `some` and `includes`
  unfoldable pub group_matches : Option Text → Option Text → Bool
  group_matches granted user = any (λ x. among (group_aliases user) x) (group_aliases granted)
