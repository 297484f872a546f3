-- ===== src/Http/Range/Bounds.antt =====
-- The ranges that src/transports/lib/http-range.js returns.
use canvas_server.Prelude.{
  ℕ, ◌-◌, ◌≤◌, ◌<◌, ◌≡◌, refl, ◌≢◌, inl, inr, true, false, some, [], ◌∷◌, ◌++◌, arith, Text, codes,
  is_digit, is_space, All, All-append, trim, trim_of_solid, Option-cases, min,
}
use canvas_server.Http.Range.{
  range, number, digits, second_group, match_bytes, check_range, select_range, parse_byte_range,
}

check_range-inside :
    (total start end s e : ℕ)
    → end ≤ total - 1
    → check_range total start end ≡ range s e
    → (s ≤ e) × (e < total)
unfolding check_range
check_range-inside total start end s e h eq = ground arith

select_range-inside :
    (total : ℕ) (first second : Text) (s e : ℕ)
    → select_range total first second ≡ range s e
    → (s ≤ e) × (e < total)
unfolding select_range
select_range-inside total [] [] s e eq = ground arith
select_range-inside total [] (d ∷ t) s e eq =
    ground
      (arith, check_range-inside total (total - number 0 (d ∷ t)) (total - 1) s e (omega arith))
select_range-inside total (c ∷ r) [] s e eq =
    check_range-inside total (number 0 (c ∷ r)) (total - 1) s e (omega arith) eq
select_range-inside total (c ∷ r) (d ∷ t) s e eq =
    check_range-inside total (number 0 (c ∷ r)) _ s e (ground arith) eq

-- Whatever the header and the size of the resource, a range that is returned is not empty and lies
-- inside the resource: `start <= end < total`.
pub parse_byte_range-inside :
    (header : Text) (total s e : ℕ)
    → parse_byte_range (some header) (some total) ≡ range s e
    → (s ≤ e) × (e < total)
unfolding parse_byte_range
parse_byte_range-inside [] total s e eq = ground arith
parse_byte_range-inside (c ∷ r) total s e eq = elim (Option-cases (match_bytes (trim (c ∷ r)))) [
  | inl missed ↦ ground arith
  | inr (groups, matched) ↦
      select_range-inside total groups.0 groups.1 s e (rw (matched, parse_byte_range) at eq)
]

-- The header `bytes=<first>-<second>`.
abbrev pub header_of : Text → Text → Text
header_of first second = codes "bytes=" ++ first ++ b'-' ∷ second

abbrev pub AreDigits : Text → Type 0
AreDigits = All (λ c. is_digit c ≡ true)

digits-append :
    (d : Text) (c : ℕ) (rest : Text)
    → AreDigits d
    → is_digit c ≡ false
    → digits (d ++ c ∷ rest) ≡ (d, c ∷ rest)
unfolding digits
digits-append [] c rest h stop = rw stop
digits-append (x ∷ d) c rest (p, h) stop = rw (digits-append d c rest h stop) (rw p)

digits_all : (d : Text) → AreDigits d → digits d ≡ (d, [])
unfolding digits
digits_all [] h = refl
digits_all (x ∷ d) (p, h) = rw (digits_all d h) (rw p)

AreDigits-solid : (d : Text) → AreDigits d → All (λ c. is_space c ≡ false) d
AreDigits-solid [] h = tt
AreDigits-solid (c ∷ d) (p, h) = (ground arith, AreDigits-solid d h)

header_of-solid :
    (a b : Text) → AreDigits a → AreDigits b → All (λ c. is_space c ≡ false) (header_of a b)
header_of-solid a b ha hb =
    All-append _ (codes "bytes=") (a ++ b'-' ∷ b) (ground arith)
      (All-append _ a (b'-' ∷ b) (AreDigits-solid a ha) (refl, AreDigits-solid b hb))

match_bytes-header_of :
    (a b : Text) → AreDigits a → AreDigits b → match_bytes (header_of a b) ≡ some (a, b)
unfolding match_bytes second_group
match_bytes-header_of a b ha hb = rw (digits-append a b'-' b ha refl) (rw (digits_all b hb))

parse_byte_range-header_of :
    (a b : Text) (total : ℕ)
    → AreDigits a
    → AreDigits b
    → parse_byte_range (some (header_of a b)) (some total) ≡ select_range total a b
unfolding parse_byte_range
parse_byte_range-header_of a b total ha hb =
    rw (trim_of_solid (header_of a b) (header_of-solid a b ha hb))
      (rw (match_bytes-header_of a b ha hb))

-- A header `bytes=first-second` with both numbers, the first inside the resource and not behind
-- the second, is answered by exactly the bytes asked for that exist: the end is cut at the last
-- byte of the resource.
pub parse_byte_range-bounded :
    (first second : Text) (total : ℕ)
    → AreDigits first
    → AreDigits second
    → first ≢ []
    → second ≢ []
    → number 0 first < total
    → number 0 first ≤ number 0 second
    → parse_byte_range (some (header_of first second)) (some total)
      ≡ range (number 0 first) (min (number 0 second) (total - 1))
unfolding select_range check_range
parse_byte_range-bounded [] second total ha hb na nb lt le = absurd (na refl)
parse_byte_range-bounded (c ∷ a) [] total ha hb na nb lt le = absurd (nb refl)
parse_byte_range-bounded (c ∷ a) (d ∷ b) total ha hb na nb lt le =
    rw (parse_byte_range-header_of (c ∷ a) (d ∷ b) total ha hb) (ground arith)

-- A suffix header `bytes=-n` with n above 0 on a resource that is not empty is answered by its
-- last n bytes, or by the whole resource if it is shorter.
pub parse_byte_range-suffix :
    (suffix : Text) (total : ℕ)
    → AreDigits suffix
    → 0 < number 0 suffix
    → 0 < total
    → parse_byte_range (some (header_of [] suffix)) (some total)
      ≡ range (total - number 0 suffix) (total - 1)
unfolding select_range check_range
parse_byte_range-suffix [] total h pos lt = absurd (unfold number in omega arith)
parse_byte_range-suffix (c ∷ s) total h pos lt =
    rw (parse_byte_range-header_of [] (c ∷ s) total tt h) (ground arith)
