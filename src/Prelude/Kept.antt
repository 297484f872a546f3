-- ===== src/Prelude/Kept.antt =====
-- What a list keeps under a Boolean test, and what holds of its members.
use mathlib.Core.Path.{◌≡◌, refl, sym, ap, ◌∙◌, subst}
use mathlib.Core.Logic.{◌⊎◌, inl, inr}
use mathlib.Core.Bool.{Bool, true, false, not}
use mathlib.Core.List.{List, [], ◌∷◌, Memᴰ}
use native.Mathlib.Omega.{arith}
use canvas_server.Prelude.Tests.{if◌then◌else◌}
use canvas_server.Prelude.Lists.{keep, All}

module _ {ℓ} {A : Type ℓ} where
  mem_of_if :
      {a : A} (b : Bool) (x : A) (xs : List A)
      → Memᴰ a (if b then x ∷ xs else xs)
      → ((a ≡ x) × (b ≡ true)) ⊎ Memᴰ a xs
  mem_of_if true x xs (Memᴰ.head e) = inl (e, refl)
  mem_of_if true x xs (Memᴰ.tail m) = inr m
  mem_of_if false x xs m = inr m

  if_of_mem :
      {a : A} (b : Bool) (x : A) (xs : List A) → Memᴰ a xs → Memᴰ a (if b then x ∷ xs else xs)
  if_of_mem true x xs m = Memᴰ.tail m
  if_of_mem false x xs m = m

  if_of_head :
      {a : A} (b : Bool) (x : A) (xs : List A)
      → a ≡ x
      → b ≡ true
      → Memᴰ a (if b then x ∷ xs else xs)
  if_of_head true x xs e h = Memᴰ.head e
  if_of_head false x xs e h = cc

  module _ (p : A → Bool) where
    pub Mem-keep : {a : A} (xs : List A) → Memᴰ a (keep p xs) → Memᴰ a xs × (p a ≡ true)
    Mem-keep [] h = elim h [ ]
    Mem-keep (x ∷ xs) h = elim (mem_of_if (p x) x (keep p xs) h) [
      | inl (e, holds) ↦ (Memᴰ.head e, ap p e ∙ holds)
      | inr below ↦ (let (there, holds) = Mem-keep xs below in (Memᴰ.tail there, holds))
    ]

    pub keep-Mem : {a : A} (xs : List A) → Memᴰ a xs → p a ≡ true → Memᴰ a (keep p xs)
    keep-Mem [] m h = elim m [ ]
    keep-Mem (x ∷ xs) (Memᴰ.head e) h = if_of_head (p x) x (keep p xs) e (sym (ap p e) ∙ h)
    keep-Mem (x ∷ xs) (Memᴰ.tail m) h = if_of_mem (p x) x (keep p xs) (keep-Mem xs m h)

    pub keep_none : (xs : List A) → keep p xs ≡ [] → keep (λ x. not (p x)) xs ≡ xs
    keep_none [] h = refl
    keep_none (x ∷ xs) h = ground (arith, h, keep_none xs)

  pub All-Mem : (P : A → Type 0) {a : A} (xs : List A) → All P xs → Memᴰ a xs → P a
  All-Mem P [] h m = elim m [ ]
  All-Mem P (x ∷ xs) (p, h) (Memᴰ.head e) = subst P (sym e) p
  All-Mem P (x ∷ xs) (p, h) (Memᴰ.tail m) = All-Mem P xs h m
