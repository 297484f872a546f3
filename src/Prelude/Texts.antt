-- ===== src/Prelude/Texts.antt =====
-- Text that the program walks, as the list of its UTF-16 units, and the string methods that the
-- sources call on it.
use Prim.Native.Nat.{ℕ}
use Prim.Native.Char.{code}
use Prim.Native.String.{String}
use mathlib.Core.Path.{◌≡◌, refl}
use mathlib.Core.Logic.{◌↔◌, ◌⊎◌, inl, inr}
use mathlib.Core.Bool.{Bool, true, false, ◌&&◌, ◌||◌}
use mathlib.Core.Option.{Option, none, some}
use mathlib.Core.List.{List, [], ◌∷◌, ◌++◌, reverse, reverse-reverse, reverse-cons, reverse-append}
use native.Mathlib.Omega.{arith}
use canvas_server.Prelude.Lists.{All, All-reverse}
use canvas_server.Prelude.Tests.{Bool-cases, if◌then◌else◌, nat_eq, leb}

abbrev pub Text : Type 0
Text = List ℕ

-- A literal of the source.
abbrev pub codes : String → Text
codes String.[] = []
codes (String.◌∷◌ c s) = code c ∷ codes s

abbrev pub text_eq : Text → Text → Bool
text_eq [] [] = true
text_eq [] (d ∷ t) = false
text_eq (c ∷ s) [] = false
text_eq (c ∷ s) (d ∷ t) = nat_eq c d && text_eq s t

pub text_eq_iff : (s t : Text) → (text_eq s t ≡ true) ↔ (s ≡ t)
text_eq_iff [] [] = ground arith
text_eq_iff [] (d ∷ t) = ground arith
text_eq_iff (c ∷ s) [] = ground arith
text_eq_iff (c ∷ s) (d ∷ t) = ground (arith, text_eq_iff s t)

-- `s.startsWith(p)`, with what is left of `s` after `p`
abbrev pub strip_prefix : Text → Text → Option Text
strip_prefix [] s = some s
strip_prefix (d ∷ p) [] = none
strip_prefix (d ∷ p) (c ∷ s) = if nat_eq d c then strip_prefix p s else none

abbrev pub starts_with : Text → Text → Bool
starts_with [] s = true
starts_with (d ∷ p) [] = false
starts_with (d ∷ p) (c ∷ s) = nat_eq d c && starts_with p s

-- `s.includes(t)`
abbrev pub has_text : Text → Text → Bool
has_text t [] = starts_with t []
has_text t (c ∷ s) = starts_with t (c ∷ s) || has_text t s

-- The characters that `trim` removes: white space and line terminators of ECMAScript.
abbrev pub is_space : ℕ → Bool
is_space c =
    (leb 9 c && leb c 13)
    || nat_eq c 32
    || nat_eq c 160
    || nat_eq c 0x1680
    || (leb 0x2000 c && leb c 0x200a)
    || (leb 0x2028 c && leb c 0x2029)
    || nat_eq c 0x202f
    || nat_eq c 0x205f
    || nat_eq c 0x3000
    || nat_eq c 0xfeff

abbrev pub trim_start : Text → Text
trim_start [] = []
trim_start (c ∷ s) = let rest = trim_start s in if is_space c then rest else c ∷ s

trim_start_of_solid : (s : Text) → All (λ c. is_space c ≡ false) s → trim_start s ≡ s
trim_start_of_solid [] h = refl
trim_start_of_solid (c ∷ s) (p, h) = rw p

-- `s.trim()`
abbrev pub trim : Text → Text
trim s = reverse (trim_start (reverse (trim_start s)))

pub trim_of_solid : (s : Text) → All (λ c. is_space c ≡ false) s → trim s ≡ s
trim_of_solid s h =
    rw
      (
        trim_start_of_solid s h,
        trim_start_of_solid (reverse s) (All-reverse (λ c. is_space c ≡ false) s h),
      )
      (reverse-reverse s)

trim_start_idem : (s : Text) → trim_start (trim_start s) ≡ trim_start s
trim_start_idem [] = refl
trim_start_idem (c ∷ s) = ground (arith, trim_start_idem s)

trim_start-concat :
    (s : Text) (c : ℕ) → is_space c ≡ false → trim_start (s ++ c ∷ []) ≡ trim_start s ++ c ∷ []
trim_start-concat [] c h = rw h
trim_start-concat (d ∷ s) c h = ground (arith, trim_start-concat s c h)

-- `trim_start` leaves a text that is empty or begins with no space.
trim_start-cases :
    (s : Text)
    → (trim_start s ≡ []) ⊎ ((c : ℕ) × (u : Text) × (trim_start s ≡ c ∷ u) × (is_space c ≡ false))
trim_start-cases [] = inl refl
trim_start-cases (c ∷ s) = elim (Bool-cases (is_space c)) [
  | inl space ↦ rw space (trim_start-cases s)
  | inr solid ↦ inr (c, s, rw solid, solid)
]

trim_end-cons :
    (c : ℕ) (u : Text)
    → is_space c ≡ false
    → reverse (trim_start (reverse (c ∷ u))) ≡ c ∷ reverse (trim_start (reverse u))
trim_end-cons c u h = rw reverse-cons (rw (trim_start-concat (reverse u) c h) (rw reverse-append))

pub trim_idem : (s : Text) → trim (trim s) ≡ trim s
trim_idem s = elim (trim_start-cases s) [
  | inl blank ↦ rw blank
  | inr (c, u, starts, solid) ↦ rw starts (
      rw (trim_end-cons c u solid) (
        rw solid (
          rw (trim_end-cons c (reverse (trim_start (reverse u))) solid)
            (rw reverse-reverse (rw trim_start_idem)))))
]

-- A trimmed text is empty or begins with no space.
pub trim-cases :
    (s : Text) → (trim s ≡ []) ⊎ ((c : ℕ) × (u : Text) × (trim s ≡ c ∷ u) × (is_space c ≡ false))
trim-cases s = elim (trim_start-cases s) [
  | inl blank ↦ inl (rw blank)
  | inr (c, u, starts, solid) ↦
      inr (c, reverse (trim_start (reverse u)), rw starts (trim_end-cons c u solid), solid)
]

abbrev pub is_digit : ℕ → Bool
is_digit c = leb b'0' c && leb c b'9'

-- `s.split(sep)` on one character: never empty
abbrev pub split : ℕ → Text → List Text
split sep [] = [] ∷ []
split sep (c ∷ s) = elim (split sep s) [
  | [] ↦ (c ∷ []) ∷ []
  | w ∷ ws ↦ if nat_eq c sep then [] ∷ w ∷ ws else (c ∷ w) ∷ ws
]
