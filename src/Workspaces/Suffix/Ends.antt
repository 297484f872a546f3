-- ===== src/Workspaces/Suffix/Ends.antt =====
-- The loops over suffixes in src/core/workspace/index.js end.
use mathlib.Core.Path.{subst}
use mathlib.Core.List.{append_cancel_left, append-nil}
use canvas_server.Prelude.{
  ℕ, zero, suc, ◌+◌, ◌≤◌, ◌<◌, ◌≡◌, ◌≢◌, refl, inl, inr, Bool, true, false, none, some, List, [],
  ◌∷◌, ◌++◌, ltb, Text, Bool-cases, Option-cases, none-ne-some, some-inj, arith, sym, ◌∙◌, length,
  lookup, remove, text_key, text_eq, text_eq_iff, lookup-remove,
}
use canvas_server.Workspaces.Suffix.{candidate, first_free, decimal}
use canvas_server.Workspaces.Suffix.Decimals.{decimal-inj}

length-remove_le : {V : Type 0} (k : Text) (t : List (Text × V)) → length (remove k t) ≤ length t
unfolding remove
length-remove_le k [] = omega arith
length-remove_le k ((j, v) ∷ t) = ground (arith, length-remove_le k t)

length-remove_lt :
    {V : Type 0} (k : Text) (t : List (Text × V))
    → lookup k t ≢ none
    → length (remove k t) < length t
unfolding remove lookup
length-remove_lt k [] h = elim (h refl) [ ]
length-remove_lt k ((j, v) ∷ t) h = elim (Bool-cases (text_eq j k)) [
  | inl eq ↦ rw (eq, remove) (ground (arith, length-remove_le k t))
  | inr ne ↦ rw (ne, remove) (ground (arith, length-remove_lt k t (λ e. h (rw ne e))))
]

-- Different keys that are all in a table are not more than the table has entries.
pub pigeonhole :
    {V : Type 0} (key : ℕ → Text) (t : List (Text × V)) (f n : ℕ)
    → ((i j : ℕ) → n ≤ i → n ≤ j → key i ≡ key j → i ≡ j)
    → ((i : ℕ) → n ≤ i → i < n + f → lookup (key i) t ≢ none)
    → f ≤ length t
pigeonhole key t zero n inj held = omega arith
pigeonhole key t (suc f) n inj held =
    let fewer = length-remove_lt (key n) t (held n (omega arith) (omega arith)) in
    let rest =
      pigeonhole key (remove (key n) t) f (suc n)
        (λ i j p q e. inj i j (omega arith) (omega arith) e)
        (λ i p q gone. elim (Bool-cases (text_eq (key n) (key i))) [
          | inl eq ↦
              omega
                (arith, p, inj n i (omega arith) (omega arith) ((text_eq_iff (key n) (key i)).0 eq))
          | inr ne ↦
              held i (omega arith) (omega arith)
                (ground (arith, lookup-remove (key n) (key i) t, gone, ne))
        ]) in
    omega (arith, fewer, rest)

first_free-some :
    (taken : Text → Bool) (base : Text) (f n : ℕ) (name : Text)
    → first_free taken base f n ≡ some name
    → taken name ≡ false
unfolding first_free
first_free-some taken base zero n name h = elim (none-ne-some h) [ ]
first_free-some taken base (suc f) n name h = elim (Bool-cases (taken (candidate base n))) [
  | inl on ↦ first_free-some taken base f (suc n) name (rw (on, first_free) at h)
  | inr off ↦ subst (λ x. taken x ≡ false) (some-inj (rw (off, first_free) at h)) off
]

first_free-none :
    (taken : Text → Bool) (base : Text) (f n i : ℕ)
    → first_free taken base f n ≡ none
    → n ≤ i
    → i < n + f
    → taken (candidate base i) ≡ true
unfolding first_free
first_free-none taken base zero n i h p q = absurd (omega (arith, p, q))
first_free-none taken base (suc f) n i h p q = elim (Bool-cases (taken (candidate base n))) [
  | inl on ↦ elim (Bool-cases (ltb n i)) [
    | inl later ↦
        first_free-none taken base f (suc n) i (rw (on, first_free) at h) (ground arith)
          (omega arith)
    | inr here ↦
        let same : n ≡ i = ground (arith, p) in subst (λ x. taken (candidate base x) ≡ true) same on
  ]
  | inr off ↦ elim (none-ne-some (sym (rw (off, first_free) at h))) [ ]
]

longer : (base rest : Text) (c : ℕ) → base ≢ base ++ c ∷ rest
longer base rest c e = ground (arith, append_cancel_left base [] (c ∷ rest) (append-nil base ∙ e))

-- Different suffixes give different names.
pub candidate-inj :
    (base : Text) (n k : ℕ) → 1 ≤ n → 1 ≤ k → candidate base n ≡ candidate base k → n ≡ k
unfolding candidate
candidate-inj base n k p q e = elim (Bool-cases (ltb n 2)) [
  | inl a ↦ elim (Bool-cases (ltb k 2)) [
    | inl b ↦ ground (arith, p, q)
    | inr b ↦ elim (longer base (decimal k) b'-' (rw (a, b) at e)) [ ]
  ]
  | inr a ↦ elim (Bool-cases (ltb k 2)) [
    | inl b ↦ elim (longer base (decimal n) b'-' (sym (rw (a, b) at e))) [ ]
    | inr b ↦ decimal-inj n k (
        ground
          (arith, append_cancel_left base (b'-' ∷ decimal n) (b'-' ∷ decimal k) (rw (a, b) at e)))
  ]
]

-- The loop that starts with the bare name ends within one round more than the table has entries,
-- with a name that passes its test, if the test only ever refuses a name whose key is in the
-- table and different suffixes have different keys.
pub first_free-ends :
    {V : Type 0} (taken : Text → Bool) (base : Text) (key : ℕ → Text) (t : List (Text × V))
    → ((n : ℕ) → taken (candidate base n) ≡ true → lookup (key n) t ≢ none)
    → ((n k : ℕ) → 1 ≤ n → 1 ≤ k → key n ≡ key k → n ≡ k)
    → (name : Text) × (first_free taken base (suc (length t)) 1 ≡ some name) × (taken name ≡ false)
first_free-ends taken base key t refused inj =
    elim (Option-cases (first_free taken base (suc (length t)) 1)) [
      | inl out ↦ absurd (
          omega (
            arith,
            pigeonhole key t (suc (length t)) 1 inj
                (λ i p q. refused i (first_free-none taken base (suc (length t)) 1 i out p q)),
          ))
      | inr (name, h) ↦ (name, h, first_free-some taken base (suc (length t)) 1 name h)
    ]
