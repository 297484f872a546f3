-- ===== src/Http/Range.antt =====
-- src/transports/lib/http-range.js
pub mod Bounds
mod Tests
use canvas_server.Prelude.{
  ℕ, zero, suc, ◌+◌, ◌-◌, ◌*◌, Bool, true, false, ◌&&◌, ◌||◌, Option, none, some, List, [], ◌∷◌,
  Text, codes, text_eq, strip_prefix, trim, is_digit, ltb, leb, nat_eq, if◌then◌else◌,
}

-- `null`, `'unsatisfiable'` or `{ start, end }`
pub data ByteRange : Type 0 where
  absent unsatisfiable : ByteRange
  range : ℕ → ℕ → ByteRange

-- `parseInt(s, 10)` on the digits of one group of the pattern
pub number : ℕ → Text → ℕ
number acc [] = acc
number acc (c ∷ s) = number (acc * 10 + (c - b'0')) s

-- The greedy `\d*` and what follows it.
pub digits : Text → Text × Text
digits [] = ([], [])
digits (c ∷ s) = let (d, rest) = digits s in if is_digit c then (c ∷ d, rest) else ([], c ∷ s)

-- What follows the first group: `-(\d*)$`.
second_group : Text → Text → Option (Text × Text)
second_group first [] = none
second_group first (c ∷ s) =
    let (second, rest) = digits s in
    if nat_eq c b'-' && text_eq rest [] then some (first, second) else none

-- The two groups of `/^bytes=(\d*)-(\d*)$/`.
match_bytes : Text → Option (Text × Text)
unfolding digits second_group
match_bytes s = elim (strip_prefix (codes "bytes=") s) [
  | none ↦ none
  | some spec ↦ second_group (digits spec).0 (digits spec).1
]

-- The last guard of `parseByteRange`. `end` is a number that the code may make `total - 1`; it is
-- only negative where `total` is 0, and then `start >= total` holds.
check_range : ℕ → ℕ → ℕ → ByteRange
check_range total start end =
    if ltb end start || leb total start then unsatisfiable else range start end

-- `parseByteRange` below the match, on its two groups.
select_range : ℕ → Text → Text → ByteRange
unfolding check_range number
select_range total [] [] = absent
select_range total [] (c ∷ s) =
    let n = number 0 (c ∷ s) in
    if nat_eq n 0 then unsatisfiable else check_range total (total - n) (total - 1)
select_range total (c ∷ s) [] = check_range total (number 0 (c ∷ s)) (total - 1)
select_range total (c ∷ s) (d ∷ t) =
    let end = number 0 (d ∷ t) in
    check_range total (number 0 (c ∷ s)) (if leb total end then total - 1 else end)

-- `none` is a header that is absent, and a total that is not finite.
pub parse_byte_range : Option Text → Option ℕ → ByteRange
unfolding match_bytes select_range
parse_byte_range none total = absent
parse_byte_range (some header) none = absent
parse_byte_range (some []) (some total) = absent
parse_byte_range (some (c ∷ s)) (some total) = elim (match_bytes (trim (c ∷ s))) [
  | none ↦ absent
  | some (first, second) ↦ select_range total first second
]
