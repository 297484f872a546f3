-- ===== src/Workspaces/Registry/Views.antt =====
-- The indexes and tables of src/core/workspace/index.js, seen as one directory of workspaces.
use mathlib.Core.Path.{subst}
use canvas_server.Prelude.{
  ◌≡◌, ◌⊎◌, refl, inl, inr, Option, none, some, arith, Text, text_eq, text_eq_iff, if◌then◌else◌,
  lookup, text_key, Bool-cases, Option-cases, none-ne-some, sym, ◌∙◌,
}
use canvas_server.Workspaces.Indexes.Defs.{Entry, Manager, entry_key}
use canvas_server.Workspaces.Indexes.Consistent.{
  Has, IsProper, IsConsistent, added, dropped, added-old, added-new, dropped-old, dropped-cases,
  added-cases,
}
use canvas_server.Workspaces.Indexes.Added.{IsConsistent-added}
use canvas_server.Workspaces.Indexes.Dropped.{IsConsistent-dropped, ids-dropped}
use canvas_server.Workspaces.Indexes.Found.{truthy_of_filled}
use canvas_server.Workspaces.Imports.{existing_of}

-- The abstract view: which entry an id has, and with whom.
abbrev pub Directory : Type 0
Directory = Text → Option (Text × Entry)

abbrev pub view : Manager → Directory
view m id = existing_of id m

abbrev pub assign : Text → Option (Text × Entry) → Directory → Directory
assign id x d j = if text_eq id j then x else d j

pub view_of_unplaced : (m : Manager) (id : Text) → lookup id m.ids ≡ none → view m id ≡ none
unfolding existing_of
view_of_unplaced m id absent = rw (absent, existing_of) refl

module _ (m : Manager) (c : IsConsistent m) where
  pub view-Has : (u id : Text) (e : Entry) → Has u id e m → view m id ≡ some (u, e)
  unfolding existing_of
  view-Has u id e h =
      rw (c.placed u id e h, existing_of)
        (rw (truthy_of_filled u (c.proper u id e h).has_owner) (rw h refl))

  view-absent : (id : Text) → ((u : Text) (e : Entry) → Has u id e m → ⊥) → view m id ≡ none
  view-absent id gone = elim (Option-cases (lookup id m.ids)) [
    | inl absent ↦ view_of_unplaced m id absent
    | inr (u, there) ↦ let (e, h) = c.ids_back id u there in absurd (gone u e h)
  ]

  -- Either the directory has an entry that is stored, or it has none and none is stored.
  view-cases :
      (id : Text)
      → ((u : Text) × (e : Entry) × Has u id e m × (view m id ≡ some (u, e)))
        ⊎ (((u : Text) (e : Entry) → Has u id e m → ⊥) × (view m id ≡ none))
  view-cases id = elim (Option-cases (lookup id m.ids)) [
    | inl absent ↦
        inr (λ u e h. none-ne-some (sym absent ∙ c.placed u id e h), view_of_unplaced m id absent)
    | inr (u, there) ↦ let (e, h) = c.ids_back id u there in inl (u, e, h, view-Has u id e h)
  ]

-- To add an entry under a new id assigns it in the directory.
pub view-added :
    (m : Manager) (u : Text) (e : Entry)
    → IsConsistent m
    → IsProper u e.id e
    → lookup e.id m.ids ≡ none
    → lookup (entry_key u e) m.names ≡ none
    → (j : Text) → view (added u e m) j ≡ assign e.id (some (u, e)) (view m) j
view-added m u e c p new_id new_name j =
    let c' = IsConsistent-added m u e c p new_id new_name in
    elim (Bool-cases (text_eq e.id j)) [
      | inl same ↦ rw same (
          subst (λ i. view (added u e m) i ≡ some (u, e)) ((text_eq_iff e.id j).0 same)
            (view-Has (added u e m) c' u e.id e (added-new m u e)))
      | inr other ↦ rw other (elim (view-cases m c j) [
        | inl (v, f, h, is) ↦
            view-Has (added u e m) c' v j f (added-old m c u e v j f new_id h) ∙ sym is
        | inr (nobody, is) ↦
            view-absent (added u e m) c' j (λ v f h. elim (added-cases m u e v j f h) [
              | inl (x, y, z) ↦ ground (arith, text_eq_iff e.id j, other, y)
              | inr old ↦ nobody v f old
            ])
            ∙ sym is
      ])
    ]

-- To drop a stored entry takes it out of the directory.
pub view-dropped :
    (m : Manager) (e : Entry)
    → IsConsistent m
    → Has e.owner e.id e m
    → (j : Text) → view (dropped e.owner e m) j ≡ assign e.id none (view m) j
view-dropped m e c now j =
    let c' = IsConsistent-dropped m e.owner e c now in
    elim (Bool-cases (text_eq e.id j)) [
      | inl same ↦ rw same (
          view_of_unplaced (dropped e.owner e m) j (ids-dropped m c e.owner e now j ∙ rw same refl))
      | inr other ↦ rw other (elim (view-cases m c j) [
        | inl (v, f, h, is) ↦
            view-Has (dropped e.owner e m) c' v j f
              (dropped-old m e.owner e v j f h (λ x. ground (arith, text_eq_iff e.id j, other, x)))
            ∙ sym is
        | inr (nobody, is) ↦
            view-absent (dropped e.owner e m) c' j
              (λ v f h. nobody v f (dropped-cases m c e.owner e v j f now h).1)
            ∙ sym is
      ])
    ]
