-- ===== src/Hooks/Pending/Json.antt =====
-- The lines of src/core/workspace/services/hook/pending-actions.js: `JSON.stringify` of a string, which
-- is a list of UTF-16 units, and the bytes that a text has in UTF-8.
use canvas_server.Prelude.{
  ℕ, ◌+◌, ◌-◌, ◌/◌, ◌%◌, Bool, false, ◌||◌, ◌&&◌, not, [], ◌∷◌, ◌++◌, leb, ltb, nat_eq, Text, codes,
  if◌then◌else◌,
}

abbrev pub is_high : ℕ → Bool
is_high c = leb 0xd800 c && leb c 0xdbff

abbrev pub is_low : ℕ → Bool
is_low c = leb 0xdc00 c && leb c 0xdfff

abbrev pub starts_low : Text → Bool
starts_low [] = false
starts_low (c ∷ s) = is_low c

unfoldable pub hex_digit : ℕ → ℕ
hex_digit n = if ltb n 10 then b'0' + n else b'a' + (n - 10)

unfoldable pub hex4 : ℕ → Text
hex4 c =
    hex_digit (c / 4096 % 16)
    ∷ hex_digit (c / 256 % 16)
    ∷ hex_digit (c / 16 % 16)
    ∷ hex_digit (c % 16)
    ∷ []

-- A unit that stands for itself wherever it stands.
unfoldable pub is_unescaped : ℕ → Bool
is_unescaped c =
    leb 32 c && not (nat_eq c b'"') && not (nat_eq c b'\\') && not (is_high c) && not (is_low c)

-- A unit on its own.
unfoldable pub escaped_unit : ℕ → Text
escaped_unit c =
    if is_unescaped c
    then c ∷ []
    else if nat_eq c b'"'
    then codes "\\\""
    else if nat_eq c b'\\'
    then codes "\\\\"
    else if nat_eq c 8
    then codes "\\b"
    else if nat_eq c 9
    then codes "\\t"
    else if nat_eq c 10
    then codes "\\n"
    else if nat_eq c 12
    then codes "\\f"
    else if nat_eq c 13
    then codes "\\r"
    else codes "\\u" ++ hex4 c

-- `after` says that the unit before is the first half of a surrogate pair: halves that meet stand
-- for themselves.
unfoldable pub escaped : Bool → Text → Text
escaped after [] = []
escaped after (c ∷ s) =
    (if is_high c && starts_low s || is_low c && after then c ∷ [] else escaped_unit c)
    ++ escaped (is_high c) s

unfoldable pub quoted : Text → Text
quoted s = b'"' ∷ escaped false s ++ b'"' ∷ []

-- Each half of a surrogate pair counts two of its four bytes; JSON has no halves alone.
unfoldable pub utf8_length : Text → ℕ
utf8_length [] = 0
utf8_length (c ∷ s) =
    (if ltb c 0x80 then 1 else if ltb c 0x800 || is_high c || is_low c then 2 else 3)
    + utf8_length s
