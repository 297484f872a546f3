-- ===== src/Gate/Uuid.antt =====
-- The regular expression by which src/transports/middleware/workspace-acl.js and agent-acl.js tell
-- a workspace's id from its name: /^[0-9a-f]{8}-[0-9a-f]{4}-...-[0-9a-f]{12}$/i.
use canvas_server.Prelude.{
  ℕ, suc, zero, Bool, true, false, ◌&&◌, ◌||◌, Option, none, some, List, [], ◌∷◌, Text, String,
  codes, nat_eq, leb, is_digit, if◌then◌else◌,
}

abbrev is_hex : ℕ → Bool
is_hex c = is_digit c || (leb b'a' c && leb c b'f') || (leb b'A' c && leb c b'F')

-- The rest of a text after `n` hex digits.
unfoldable pub after_hex : ℕ → Text → Option Text
after_hex zero s = some s
after_hex (suc n) [] = none
after_hex (suc n) (c ∷ s) = let rest = after_hex n s in if is_hex c then rest else none

-- What follows a dash.
unfoldable pub after_dash : Option Text → Option Text
after_dash none = none
after_dash (some []) = none
after_dash (some (c ∷ s)) = if nat_eq c b'-' then some s else none

abbrev is_end : Option Text → Bool
is_end (some []) = true
is_end _ = false

-- `{n}` hex digits and, where other groups follow, a dash before them, up to the end of the text.
unfoldable pub groups : List ℕ → Option Text → Bool
groups ns none = false
groups [] (some s) = false
groups (n ∷ []) (some s) = is_end (after_hex n s)
groups (n ∷ m ∷ ns) (some s) = groups (m ∷ ns) (after_dash (after_hex n s))

unfoldable pub is_uuid : String → Bool
is_uuid s = groups (8 ∷ 4 ∷ 4 ∷ 4 ∷ 12 ∷ []) (some (codes s))
