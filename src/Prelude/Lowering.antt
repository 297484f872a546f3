-- ===== src/Prelude/Lowering.antt =====
-- `toLowerCase`: its Unicode tables belong to the host, so it is a parameter, with the laws that
-- the program relies on.
use Prim.Native.Nat.{ℕ, ◌+◌}
use mathlib.Core.Path.{◌≡◌, refl, ap, sym, ◌∙◌}
use mathlib.Core.Bool.{Bool, true, not, ◌&&◌}
use mathlib.Core.List.{[], ◌∷◌, ◌++◌, map, reverse, reverse-cons, map-append}
use mathlib.Core.Logic.{inl, inr}
use native.Mathlib.Omega.{arith}
use canvas_server.Prelude.Tests.{if◌then◌else◌, leb, ltb, Bool-cases}
use canvas_server.Prelude.Lists.{All}
use canvas_server.Prelude.Texts.{Text, trim, trim_start, trim_idem, is_space}

-- An ASCII character that is not an upper-case letter.
abbrev pub is_plain : ℕ → Bool
is_plain c = ltb c 128 && not (leb b'A' c && leb c b'Z')

pub record Casing : Type 0 where
  pub lower : Text → Text
  pub lower_idem : (s : Text) → lower (lower s) ≡ lower s
  -- no white space has a lower-case form, and no lower-case form is white space
  pub trim-lower : (s : Text) → trim (lower s) ≡ lower (trim s)
  pub lower-eq-nil : (s : Text) → lower s ≡ [] → s ≡ []
  pub lower_of_plain : (s : Text) → All (λ c. is_plain c ≡ true) s → lower s ≡ s

module _ (u : Casing) where
  -- `s.trim().toLowerCase()`
  abbrev pub folded : Text → Text
  folded s = u.lower (trim s)

  pub folded_idem : (s : Text) → folded (folded s) ≡ folded s
  folded_idem s =
      ap u.lower (u.trim-lower (trim s)) ∙ u.lower_idem (trim (trim s)) ∙ ap u.lower (trim_idem s)

-- The casing of ASCII alone satisfies the laws.
abbrev pub lower_ascii : ℕ → ℕ
lower_ascii c = if leb b'A' c && leb c b'Z' then c + 32 else c

pub lower_ascii_idem : (s : Text) → map lower_ascii (map lower_ascii s) ≡ map lower_ascii s
lower_ascii_idem [] = refl
lower_ascii_idem (c ∷ s) = ground (arith, lower_ascii_idem s)

is_space-lower_ascii : (c : ℕ) → is_space (lower_ascii c) ≡ is_space c
is_space-lower_ascii c = ground arith

trim_start-map : (s : Text) → trim_start (map lower_ascii s) ≡ map lower_ascii (trim_start s)
trim_start-map [] = refl
trim_start-map (c ∷ s) = elim (Bool-cases (is_space c)) [
  | inl space ↦ rw (is_space-lower_ascii c, space) (trim_start-map s)
  | inr solid ↦ rw (is_space-lower_ascii c, solid)
]

reverse-map : (s : Text) → reverse (map lower_ascii s) ≡ map lower_ascii (reverse s)
reverse-map [] = refl
reverse-map (c ∷ s) =
    reverse-cons (lower_ascii c) (map lower_ascii s)
    ∙ ap (λ t. t ++ lower_ascii c ∷ []) (reverse-map s)
    ∙ sym (ap (map lower_ascii) (reverse-cons c s) ∙ map-append _ (reverse s) (c ∷ []))

pub lower_ascii_of_plain : (s : Text) → All (λ c. is_plain c ≡ true) s → map lower_ascii s ≡ s
lower_ascii_of_plain [] h = refl
lower_ascii_of_plain (c ∷ s) (p, h) = ground (arith, lower_ascii_of_plain s h)

pub trim-map : (s : Text) → trim (map lower_ascii s) ≡ map lower_ascii (trim s)
trim-map s =
    ap (λ t. reverse (trim_start (reverse t))) (trim_start-map s)
    ∙ ap (λ t. reverse (trim_start t)) (reverse-map (trim_start s))
    ∙ ap reverse (trim_start-map (reverse (trim_start s)))
    ∙ reverse-map (trim_start (reverse (trim_start s)))

pub lower_ascii-eq-nil : (s : Text) → map lower_ascii s ≡ [] → s ≡ []
lower_ascii-eq-nil [] h = refl
lower_ascii-eq-nil (c ∷ s) h = cc

abbrev pub ascii_casing : Casing
ascii_casing = record {
  lower = map lower_ascii;
  lower_idem = lower_ascii_idem;
  trim-lower = trim-map;
  lower-eq-nil = lower_ascii-eq-nil;
  lower_of_plain = lower_ascii_of_plain;
}
