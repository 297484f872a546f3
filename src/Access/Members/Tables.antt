-- ===== src/Access/Members/Tables.antt =====
-- A table of grants in which no two keys differ only by case or outer space.
use mathlib.Core.Path.{subst}
use canvas_server.Prelude.{
  ◌≡◌, ◌≢◌, refl, sym, ap, ◌∙◌, inl, inr, Option, none, some, [], ◌∷◌, arith, Text, text_eq,
  text_eq_iff, if◌then◌else◌, Casing, folded, Bool-cases, insert, remove, text_key, some-inj,
}
use canvas_server.Access.Resolve.{Grant, Grants}
use canvas_server.Access.Members.{entry_of}

module _ (u : Casing) where
  -- No key has the form `w`.
  abbrev pub Absent : Text → Grants → Type 0
  Absent w [] = Unit
  Absent w ((k, g) ∷ rest) = (folded u k ≢ w) × Absent w rest

  abbrev pub IsDistinct : Grants → Type 0
  IsDistinct [] = Unit
  IsDistinct ((k, g) ∷ rest) = Absent (folded u k) rest × IsDistinct rest

  -- Only `key` itself has its form.
  abbrev pub Only : Text → Grants → Type 0
  Only key [] = Unit
  Only key ((k, g) ∷ rest) = (folded u k ≡ folded u key → k ≡ key) × Only key rest

  pub entry_of-Absent : (w : Text) (t : Grants) → Absent w t → entry_of u w t ≡ none
  unfolding entry_of
  entry_of-Absent w [] h = refl
  entry_of-Absent w ((k, g) ∷ rest) (ne, h) =
      ground (arith, text_eq_iff (folded u k) w, entry_of-Absent w rest h)

  pub Absent-of_entry_of : (w : Text) (t : Grants) → entry_of u w t ≡ none → Absent w t
  unfolding entry_of
  Absent-of_entry_of w [] h = tt
  Absent-of_entry_of w ((k, g) ∷ rest) h = (
    λ e. ground (arith, text_eq_iff (folded u k) w),
    Absent-of_entry_of w rest (ground (arith, text_eq_iff (folded u k) w)),
  )

  pub Absent-Only : (key : Text) (t : Grants) → Absent (folded u key) t → Only key t
  Absent-Only key [] h = tt
  Absent-Only key ((k, g) ∷ rest) (ne, h) = (λ e. absurd (ne e), Absent-Only key rest h)

  -- In a table with distinct keys, a key that is found is the only one of its form.
  pub Only-of_found :
      (key : Text) (t : Grants) {g : Option Grant}
      → IsDistinct t
      → entry_of u (folded u key) t ≡ some (key, g)
      → Only key t
  unfolding entry_of
  Only-of_found key [] d h = tt
  Only-of_found key ((k, x) ∷ rest) {g} (absent, d) h =
      elim (Bool-cases (text_eq (folded u k) (folded u key))) [
        | inl same' ↦
            let e : folded u k ≡ folded u key = (text_eq_iff _ _).0 same' in
            (λ _. ground arith, Absent-Only key rest (subst (λ w. Absent w rest) e absent))
        | inr other ↦ (
          λ e. ground (arith, text_eq_iff (folded u k) (folded u key)),
          Only-of_found key rest {g = g} d (ground arith),
        )
      ]

  pub entry_of-insert :
      (key w : Text) (v : Option Grant) (t : Grants)
      → Only key t
      → entry_of u w (insert key v t)
        ≡ (if text_eq (folded u key) w then some (key, v) else entry_of u w t)
  unfolding entry_of insert
  entry_of-insert key w v [] h = refl
  entry_of-insert key w v ((k, x) ∷ rest) (only, h) = elim (Bool-cases (text_eq k key)) [
    | inl same' ↦
        let e : k ≡ key = (text_eq_iff k key).0 same' in
        rw same' (ground (arith, e, ap (folded u) e))
    | inr other ↦ rw other (
        ground (
          arith,
          entry_of-insert key w v rest h,
          text_eq_iff (folded u k) w,
          text_eq_iff (folded u key) w,
          text_eq_iff k key,
        ))
  ]

  pub Absent-insert :
      (key w : Text) (v : Option Grant) (t : Grants)
      → folded u key ≢ w
      → Absent w t
      → Absent w (insert key v t)
  unfolding insert
  Absent-insert key w v [] ne h = (ne, tt)
  Absent-insert key w v ((k, x) ∷ rest) ne (n, h) = elim (Bool-cases (text_eq k key)) [
    | inl same' ↦ rw same' (n, h)
    | inr other ↦ rw other (n, Absent-insert key w v rest ne h)
  ]

  pub IsDistinct-insert :
      (key : Text) (v : Option Grant) (t : Grants)
      → Only key t
      → IsDistinct t
      → IsDistinct (insert key v t)
  unfolding insert
  IsDistinct-insert key v [] only d = (tt, tt)
  IsDistinct-insert key v ((k, x) ∷ rest) (o, only) (a, d) = elim (Bool-cases (text_eq k key)) [
    | inl same' ↦ rw same' (a, d)
    | inr other ↦ rw other (
      Absent-insert key (folded u k) v rest (λ e. ground (arith, text_eq_iff k key, o (sym e))) a,
      IsDistinct-insert key v rest only d,
    )
  ]

  pub Absent-remove : (key w : Text) (t : Grants) → Absent w t → Absent w (remove key t)
  unfolding remove
  Absent-remove key w [] h = tt
  Absent-remove key w ((k, x) ∷ rest) (n, h) = elim (Bool-cases (text_eq k key)) [
    | inl same' ↦ rw same' (Absent-remove key w rest h)
    | inr other ↦ rw other (n, Absent-remove key w rest h)
  ]

  pub IsDistinct-remove : (key : Text) (t : Grants) → IsDistinct t → IsDistinct (remove key t)
  unfolding remove
  IsDistinct-remove key [] d = tt
  IsDistinct-remove key ((k, x) ∷ rest) (a, d) = elim (Bool-cases (text_eq k key)) [
    | inl same' ↦ rw same' (IsDistinct-remove key rest d)
    | inr other ↦ rw other (Absent-remove key (folded u k) rest a, IsDistinct-remove key rest d)
  ]

  -- Removing a key that is the only one of its form takes the form out of the table.
  pub entry_of-remove :
      (key w : Text) (t : Grants)
      → Only key t
      → entry_of u w (remove key t) ≡ (if text_eq (folded u key) w then none else entry_of u w t)
  unfolding entry_of remove
  entry_of-remove key w [] only = ground arith
  entry_of-remove key w ((k, x) ∷ rest) (o, only) = elim (Bool-cases (text_eq k key)) [
    | inl same' ↦
        let e : k ≡ key = (text_eq_iff k key).0 same' in
        rw same' (ground (arith, e, ap (folded u) e, entry_of-remove key w rest only))
    | inr other ↦ rw other (
        ground (
          arith,
          entry_of-remove key w rest only,
          text_eq_iff (folded u k) w,
          text_eq_iff (folded u key) w,
          text_eq_iff k key,
        ))
  ]

  pub folded_of_entry_of :
      (w : Text) (t : Grants) {k : Text} {g : Option Grant}
      → entry_of u w t ≡ some (k, g)
      → folded u k ≡ w
  unfolding entry_of
  folded_of_entry_of w [] h = cc
  folded_of_entry_of w ((j, x) ∷ rest) {k} {g} h = elim (Bool-cases (text_eq (folded u j) w)) [
    | inl same' ↦
        let e : (j, x) ≡ (k, g) = some-inj (sym (rw same') ∙ h) in
        ap (λ y. folded u y.0) (sym e) ∙ (text_eq_iff _ w).0 same'
    | inr other ↦ folded_of_entry_of w rest (sym (rw other) ∙ h)
  ]

  -- What the removal of the other spelling leaves: the key is the only one of its form, and the
  -- entries of other forms stay.
  pub record IsReady (key : Text) (t t' : Grants) : Type 0 where
    pub only : Only key t'
    pub distinct : IsDistinct t'
    pub others : (w : Text) → folded u key ≢ w → entry_of u w t' ≡ entry_of u w t

  pub remove-IsReady :
      (old key : Text) (t : Grants) (g : Option Grant)
      → IsDistinct t
      → entry_of u (folded u key) t ≡ some (old, g)
      → IsReady key t (remove old t)
  remove-IsReady old key t g d h =
      let e : folded u old ≡ folded u key = folded_of_entry_of (folded u key) t h in
      let only : Only old t =
        Only-of_found old t {g = g} d (subst (λ w. entry_of u w t ≡ some (old, g)) (sym e) h) in
      record {
        only = Absent-Only key (remove old t) (
            Absent-of_entry_of (folded u key) (remove old t) (
              ground (
                arith,
                entry_of-remove old (folded u key) t only,
                text_eq_iff (folded u old) (folded u key),
                e,
              )));
        distinct = IsDistinct-remove old t d;
        others =
            λ w ne. ground (arith, entry_of-remove old w t only, text_eq_iff (folded u old) w, e);
      }
