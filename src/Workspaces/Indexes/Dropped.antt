-- ===== src/Workspaces/Indexes/Dropped.antt =====
-- Entries that src/core/workspace/index.js removes from a user's index, with their lookups.
use canvas_server.Prelude.{
  ◌≡◌, refl, ◌≢◌, ◌⊎◌, inl, inr, none, some, arith, Text, text_eq, text_eq_iff, if◌then◌else◌,
  lookup, text_key, lookup-remove, Bool-cases, some-inj, none-ne-some, Option-cases, sym, ◌∙◌, ap,
}
use canvas_server.Workspaces.Indexes.Defs.{
  Entry, Manager, truthy, entry_key, remove_from_indexes, delete_entry, remove_reference,
}
use canvas_server.Workspaces.Indexes.Consistent.{
  Has, IsProper, IsConsistent, dropped, dropped-cases, dropped-old, Has-unique,
}

module _ (m : Manager) (c : IsConsistent m) (u : Text) (e : Entry) (now : Has u e.id e m) where
  pub names-dropped :
      (k : Text)
      → lookup k (dropped u e m).names
        ≡ (if text_eq (entry_key u e) k then none else lookup k m.names)
  unfolding remove_from_indexes delete_entry
  names-dropped k = lookup-remove (entry_key u e) k m.names

  pub ids-dropped :
      (j : Text) → lookup j (dropped u e m).ids ≡ (if text_eq e.id j then none else lookup j m.ids)
  unfolding remove_from_indexes delete_entry
  ids-dropped j = lookup-remove e.id j m.ids

  -- The reference of an entry as a table of its own.
  references-dropped :
      (r : Text)
      → ((truthy e.reference ≡ some r) × (lookup r (dropped u e m).references ≡ none))
        ⊎ ((truthy e.reference ≢ some r)
            × (lookup r (dropped u e m).references ≡ lookup r m.references))
  unfolding remove_from_indexes delete_entry remove_reference
  references-dropped r = elim (Option-cases (truthy e.reference)) [
    | inl absent ↦ inr (λ x. none-ne-some (sym absent ∙ x), rw absent)
    | inr (s, is) ↦ elim (Bool-cases (text_eq s r)) [
      | inl eq ↦ inl (
        is ∙ ap some ((text_eq_iff s r).0 eq),
        rw is (rw (lookup-remove s r m.references) (rw eq)),
      )
      | inr ne ↦ inr (
        λ x. ground (arith, text_eq_iff s r, some-inj (sym is ∙ x)),
        rw is (rw (lookup-remove s r m.references) (rw ne)),
      )
    ]
  ]

  dropped-IsProper : (v j : Text) (f : Entry) → Has v j f (dropped u e m) → IsProper v j f
  dropped-IsProper v j f h = c.proper v j f (dropped-cases m c u e v j f now h).1

  dropped-named :
      (v j : Text) (f : Entry)
      → Has v j f (dropped u e m)
      → lookup (entry_key v f) (dropped u e m).names ≡ some j
  dropped-named v j f h =
      let (other, old) = dropped-cases m c u e v j f now h in
      elim (Bool-cases (text_eq (entry_key u e) (entry_key v f))) [
        | inl eq ↦
            elim (other (
              some-inj (
                sym (c.named u e.id e now)
                ∙ ap (λ k. lookup k m.names) ((text_eq_iff (entry_key u e) (entry_key v f)).0 eq)
                ∙ c.named v j f old))) [ ]
        | inr ne ↦ names-dropped (entry_key v f) ∙ rw ne (c.named v j f old)
      ]

  dropped-placed :
      (v j : Text) (f : Entry) → Has v j f (dropped u e m) → lookup j (dropped u e m).ids ≡ some v
  dropped-placed v j f h =
      let (other, old) = dropped-cases m c u e v j f now h in
      ground (arith, ids-dropped j, c.placed v j f old, text_eq_iff e.id j, other)

  dropped-referable :
      (v j r : Text) (f : Entry)
      → Has v j f (dropped u e m)
      → truthy f.reference ≡ some r
      → lookup r (dropped u e m).references ≡ some j
  dropped-referable v j r f h ref =
      let (other, old) = dropped-cases m c u e v j f now h in
      elim (references-dropped r) [
        | inl (is, gone) ↦
            elim (other
              (some-inj (sym (c.referable u e.id r e now is) ∙ c.referable v j r f old ref))) [ ]
        | inr (not_it, kept) ↦ kept ∙ c.referable v j r f old ref
      ]

  dropped-names_back :
      (k j : Text)
      → lookup k (dropped u e m).names ≡ some j
      → (v : Text) × (f : Entry) × Has v j f (dropped u e m) × (entry_key v f ≡ k)
  dropped-names_back k j h = elim (Bool-cases (text_eq (entry_key u e) k)) [
    | inl eq ↦ elim (none-ne-some (sym (names-dropped k ∙ rw eq refl) ∙ h)) [ ]
    | inr ne ↦
        let (v, f, has, key) = c.names_back k j (ground (arith, names-dropped k, ne, h)) in
        (
          v,
          f,
          dropped-old m u e v j f has (λ same.
              let (x, y) = Has-unique m c u v e.id j e f now has same in
              ground (
                arith,
                text_eq_iff (entry_key u e) k,
                ap (λ z. entry_key u z) y,
                ap (λ w. entry_key w f) x,
                key,
              )),
          key,
        )
  ]

  dropped-ids_back :
      (j v : Text) → lookup j (dropped u e m).ids ≡ some v → (f : Entry) × Has v j f (dropped u e m)
  dropped-ids_back j v h = elim (Bool-cases (text_eq e.id j)) [
    | inl eq ↦ elim (none-ne-some (sym (ids-dropped j ∙ rw eq refl) ∙ h)) [ ]
    | inr ne ↦
        let (f, has) = c.ids_back j v (ground (arith, ids-dropped j, ne, h)) in
        (f, dropped-old m u e v j f has (λ same. ground (arith, text_eq_iff e.id j)))
  ]

  dropped-references_back :
      (r j : Text)
      → lookup r (dropped u e m).references ≡ some j
      → (v : Text) × (f : Entry) × Has v j f (dropped u e m) × (truthy f.reference ≡ some r)
  dropped-references_back r j h = elim (references-dropped r) [
    | inl (is, gone) ↦ elim (none-ne-some (sym gone ∙ h)) [ ]
    | inr (not_it, kept) ↦
        let (v, f, has, ref) = c.references_back r j (sym kept ∙ h) in
        (
          v,
          f,
          dropped-old m u e v j f has (λ same.
              let (x, y) = Has-unique m c u v e.id j e f now has same in not_it (rw y ref)),
          ref,
        )
  ]

-- To drop an entry that is stored keeps the tables consistent.
pub IsConsistent-dropped :
    (m : Manager) (u : Text) (e : Entry)
    → IsConsistent m
    → Has u e.id e m
    → IsConsistent (dropped u e m)
IsConsistent-dropped m u e c now = record {
  proper = dropped-IsProper m c u e now;
  named = dropped-named m c u e now;
  placed = dropped-placed m c u e now;
  referable = dropped-referable m c u e now;
  names_back = dropped-names_back m c u e now;
  ids_back = dropped-ids_back m c u e now;
  references_back = dropped-references_back m c u e now;
}
