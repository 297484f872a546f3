-- ===== src/Workspaces/Indexes/Found.antt =====
-- `#findInIndex` of src/core/workspace/index.js on indexes and tables that belong together.
use mathlib.Core.Path.{subst}
use canvas_server.Prelude.{
  ◌≡◌, refl, ◌≢◌, inl, inr, none, some, List, [], ◌∷◌, arith, Text, text_eq_iff, lookup, text_key,
  some-inj, none-ne-some, Option-cases, sym, ◌∙◌, ap, All,
}
use canvas_server.Workspaces.Indexes.Defs.{
  Entry, Manager, truthy, all_entries, indexed_entry, scan_for, find_in_index,
}
use canvas_server.Workspaces.Indexes.Consistent.{Has, IsConsistent}
use canvas_server.Workspaces.Indexes.Walked.{IsStored, all_entries-IsStored}

pub truthy_of_filled : (t : Text) → t ≢ [] → truthy (some t) ≡ some t
truthy_of_filled [] h = elim (h refl) [ ]
truthy_of_filled (c ∷ t) h = refl

pub indexed_entry-Has :
    (m : Manager) (u id : Text) (e : Entry)
    → IsConsistent m
    → Has u id e m
    → indexed_entry id m ≡ some e
unfolding indexed_entry
indexed_entry-Has m u id e c h =
    rw (c.placed u id e h, indexed_entry) (rw (truthy_of_filled u (c.proper u id e h).has_owner) h)

scan_for-none :
    (id : Text) (es : List (Text × Entry))
    → All (λ (s : Text × Entry). s.1.id ≢ id) es
    → scan_for id es ≡ none
unfolding scan_for
scan_for-none id [] h = refl
scan_for-none id ((u, e) ∷ es) (p, h) =
    ground (arith, text_eq_iff e.id id, p, scan_for-none id es h)

All-absent :
    (m : Manager) (c : IsConsistent m) (id : Text) (es : List (Text × Entry))
    → lookup id m.ids ≡ none
    → All (IsStored m) es
    → All (λ (s : Text × Entry). s.1.id ≢ id) es
All-absent m c id [] absent h = tt
All-absent m c id ((u, e) ∷ es) absent ((j, p), h) = (
  λ same. none-ne-some (
      sym absent
      ∙ ap (λ i. lookup i m.ids) (sym same ∙ (c.proper u j e p).keyed)
      ∙ c.placed u j e p),
  All-absent m c id es absent h,
)

-- An entry that is stored is found, and no state changes.
pub find_in_index-Has :
    (order : List Text) (m : Manager) (u id : Text) (e : Entry)
    → IsConsistent m
    → Has u id e m
    → find_in_index order id m ≡ (some e, m)
unfolding find_in_index
find_in_index-Has order m u id e c h = rw (indexed_entry-Has m u id e c h, find_in_index) refl

-- An id that the id index does not hold is not found by the scan either.
pub find_in_index-none :
    (order : List Text) (m : Manager) (id : Text)
    → IsConsistent m
    → lookup id m.ids ≡ none
    → find_in_index order id m ≡ (none, m)
unfolding find_in_index indexed_entry
find_in_index-none order m id c absent =
    rw (absent, find_in_index, indexed_entry)
      (rw
        (scan_for-none id (all_entries order m)
          (All-absent m c id _ absent (all_entries-IsStored order m)))
        refl)

-- What is found is stored for its owner, under the id that is looked for.
pub find_in_index-some :
    (order : List Text) (m : Manager) (id : Text) (e : Entry)
    → IsConsistent m
    → (find_in_index order id m).0 ≡ some e
    → Has e.owner e.id e m × (e.id ≡ id)
find_in_index-some order m id e c found = elim (Option-cases (lookup id m.ids)) [
  | inl absent ↦
      elim (none-ne-some (sym (ap (λ r. r.0) (find_in_index-none order m id c absent)) ∙ found)) [ ]
  | inr (u, at) ↦
      let (f, h) = c.ids_back id u at in
      let same : f ≡ e =
        some-inj (sym (ap (λ r. r.0) (find_in_index-Has order m u id f c h)) ∙ found) in
      let p = c.proper u id f h in
      subst (λ g. Has g.owner g.id g m × (g.id ≡ id)) same
        (
          subst (λ v. Has v f.id f m) (sym p.owned) (subst (λ j. Has u j f m) (sym p.keyed) h),
          p.keyed,
        )
]

-- On consistent tables the lookup changes nothing.
pub find_in_index-same :
    (order : List Text) (m : Manager) (id : Text)
    → IsConsistent m
    → (find_in_index order id m).1 ≡ m
find_in_index-same order m id c = elim (Option-cases (lookup id m.ids)) [
  | inl absent ↦ ap (λ r. r.1) (find_in_index-none order m id c absent)
  | inr (u, at) ↦
      let (f, h) = c.ids_back id u at in ap (λ r. r.1) (find_in_index-Has order m u id f c h)
]
