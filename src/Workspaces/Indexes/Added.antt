-- ===== src/Workspaces/Indexes/Added.antt =====
-- Entries that src/core/workspace/index.js adds to a user's index, with their lookups.
use mathlib.Core.Path.{subst}
use canvas_server.Prelude.{
  ◌≡◌, ◌≢◌, ◌⊎◌, inl, inr, none, some, arith, Text, text_eq, text_eq_iff, if◌then◌else◌, lookup,
  text_key, lookup-insert, Bool-cases, some-inj, none-ne-some, Option-cases, sym, ◌∙◌, ap,
}
use canvas_server.Workspaces.Indexes.Defs.{
  Entry, Manager, truthy, entry_key, add_to_indexes, set_entry, insert_reference,
}
use canvas_server.Workspaces.Indexes.Consistent.{
  Has, IsProper, IsConsistent, added, added-cases, added-old, added-new,
}

module _ (m : Manager) (c : IsConsistent m) (u : Text) (e : Entry) (p : IsProper u e.id e)
    (new_id : lookup e.id m.ids ≡ none) (new_name : lookup (entry_key u e) m.names ≡ none) where
  names-added :
      (k : Text)
      → lookup k (added u e m).names
        ≡ (if text_eq (entry_key u e) k then some e.id else lookup k m.names)
  unfolding add_to_indexes set_entry
  names-added k = lookup-insert (entry_key u e) k e.id m.names

  ids-added :
      (j : Text) → lookup j (added u e m).ids ≡ (if text_eq e.id j then some u else lookup j m.ids)
  unfolding add_to_indexes set_entry
  ids-added j = lookup-insert e.id j u m.ids

  -- The reference of an entry as a table of its own.
  references-added :
      (r : Text)
      → ((truthy e.reference ≡ some r) × (lookup r (added u e m).references ≡ some e.id))
        ⊎ ((truthy e.reference ≢ some r)
            × (lookup r (added u e m).references ≡ lookup r m.references))
  unfolding add_to_indexes set_entry insert_reference
  references-added r = elim (Option-cases (truthy e.reference)) [
    | inl absent ↦ inr (λ x. none-ne-some (sym absent ∙ x), rw absent)
    | inr (s, is) ↦ elim (Bool-cases (text_eq s r)) [
      | inl eq ↦ inl (
        is ∙ ap some ((text_eq_iff s r).0 eq),
        rw is (rw (lookup-insert s r e.id m.references) (rw eq)),
      )
      | inr ne ↦ inr (
        λ x. ground (arith, text_eq_iff s r, some-inj (sym is ∙ x)),
        rw is (rw (lookup-insert s r e.id m.references) (rw ne)),
      )
    ]
  ]

  added-IsProper : (v j : Text) (f : Entry) → Has v j f (added u e m) → IsProper v j f
  added-IsProper v j f h = elim (added-cases m u e v j f h) [
    | inl (x, y, z) ↦ rw (sym x, sym y, sym z) p
    | inr old ↦ c.proper v j f old
  ]

  added-named :
      (v j : Text) (f : Entry)
      → Has v j f (added u e m)
      → lookup (entry_key v f) (added u e m).names ≡ some j
  added-named v j f h = elim (added-cases m u e v j f h) [
    | inl (x, y, z) ↦
        rw (sym x, sym y, sym z)
          (ground (arith, names-added (entry_key u e), text_eq_iff (entry_key u e) (entry_key u e)))
    | inr old ↦ ground (
      arith,
      names-added (entry_key v f),
      c.named v j f old,
      text_eq_iff (entry_key u e) (entry_key v f),
      new_name,
    )
  ]

  added-placed :
      (v j : Text) (f : Entry) → Has v j f (added u e m) → lookup j (added u e m).ids ≡ some v
  added-placed v j f h = elim (added-cases m u e v j f h) [
    | inl (x, y, z) ↦ ground (arith, ids-added j, text_eq_iff e.id j)
    | inr old ↦ ground (arith, ids-added j, c.placed v j f old, text_eq_iff e.id j)
  ]

  added-referable :
      (v j r : Text) (f : Entry)
      → Has v j f (added u e m)
      → truthy f.reference ≡ some r
      → lookup r (added u e m).references ≡ some j
  added-referable v j r f h ref = elim (references-added r) [
    | inl (is, now) ↦ elim (added-cases m u e v j f h) [
      | inl (x, y, z) ↦ now ∙ ap some y
      | inr old ↦
          elim (none-ne-some (
            sym new_name
            ∙ ap (λ k. lookup k m.names)
                (sym (p.referred r is) ∙ (c.proper v j f old).referred r ref)
            ∙ c.named v j f old)) [ ]
    ]
    | inr (not_it, now) ↦ elim (added-cases m u e v j f h) [
      | inl (x, y, z) ↦ elim (not_it (rw z ref)) [ ]
      | inr old ↦ now ∙ c.referable v j r f old ref
    ]
  ]

  added-names_back :
      (k j : Text)
      → lookup k (added u e m).names ≡ some j
      → (v : Text) × (f : Entry) × Has v j f (added u e m) × (entry_key v f ≡ k)
  added-names_back k j h = elim (Bool-cases (text_eq (entry_key u e) k)) [
    | inl eq ↦
        let i : e.id ≡ j = ground (arith, names-added k, eq, h) in
        (
          u,
          e,
          subst (λ i. Has u i e (added u e m)) i (added-new m u e),
          (text_eq_iff (entry_key u e) k).0 eq,
        )
    | inr ne ↦
        let (v, f, has, key) = c.names_back k j (ground (arith, names-added k, ne, h)) in
        (v, f, added-old m c u e v j f new_id has, key)
  ]

  added-ids_back :
      (j v : Text) → lookup j (added u e m).ids ≡ some v → (f : Entry) × Has v j f (added u e m)
  added-ids_back j v h = elim (Bool-cases (text_eq e.id j)) [
    | inl eq ↦
        let i : u ≡ v = ground (arith, ids-added j, eq, h) in
        (
          e,
          subst (λ w. Has w j e (added u e m)) i
              (subst (λ i. Has u i e (added u e m)) ((text_eq_iff e.id j).0 eq) (added-new m u e)),
        )
    | inr ne ↦
        let (f, has) = c.ids_back j v (ground (arith, ids-added j, ne, h)) in
        (f, added-old m c u e v j f new_id has)
  ]

  added-references_back :
      (r j : Text)
      → lookup r (added u e m).references ≡ some j
      → (v : Text) × (f : Entry) × Has v j f (added u e m) × (truthy f.reference ≡ some r)
  added-references_back r j h = elim (references-added r) [
    | inl (is, now) ↦
        (u, e, subst (λ i. Has u i e (added u e m)) (some-inj (sym now ∙ h)) (added-new m u e), is)
    | inr (not_it, now) ↦
        let (v, f, has, ref) = c.references_back r j (sym now ∙ h) in
        (v, f, added-old m c u e v j f new_id has, ref)
  ]

-- To add a proper entry whose id and whose name key are not in the tables keeps them consistent.
pub IsConsistent-added :
    (m : Manager) (u : Text) (e : Entry)
    → IsConsistent m
    → IsProper u e.id e
    → lookup e.id m.ids ≡ none
    → lookup (entry_key u e) m.names ≡ none
    → IsConsistent (added u e m)
IsConsistent-added m u e c p new_id new_name = record {
  proper = added-IsProper m c u e p new_id new_name;
  named = added-named m c u e p new_id new_name;
  placed = added-placed m c u e p new_id new_name;
  referable = added-referable m c u e p new_id new_name;
  names_back = added-names_back m c u e p new_id new_name;
  ids_back = added-ids_back m c u e p new_id new_name;
  references_back = added-references_back m c u e p new_id new_name;
}
