-- ===== src/Workspaces/Indexes/Rebuilt.antt =====
-- `#rebuildIndexes` and `#findInIndex` of src/core/workspace/index.js on indexes and tables that belong together.
use mathlib.Core.Path.{subst}
use mathlib.Core.List.{Memᴰ}
use mathlib.Core.List.Memᴰ.{append_left, append_right}
use canvas_server.Prelude.{
  ◌≡◌, refl, inl, inr, false, ◌||◌, Option, none, some, List, [], ◌∷◌, ◌++◌, arith, Text, text_eq,
  text_eq_iff, lookup, insert, text_key, Bool-cases, Option-cases, sym, ◌∙◌, ap, All, All-append,
}
use canvas_server.Workspaces.Indexes.Defs.{
  Entry, Manager, is_remote, truthy, entry_key, insert_reference, add_to_indexes, add_remote_ref,
  all_entries, reindex, reindex_all, rebuild_indexes,
}
use canvas_server.Workspaces.Indexes.Consistent.{Has, IsConsistent}
use canvas_server.Workspaces.Indexes.Walked.{IsStored, all_entries-IsStored, all_entries-Memᴰ}
use canvas_server.Workspaces.Indexes.Tables.{Table, insert_all, Agrees, insert_all-same}

name_bindings : List (Text × Entry) → Table
name_bindings [] = []
name_bindings ((u, e) ∷ es) = (entry_key u e, e.id) ∷ name_bindings es

id_bindings : List (Text × Entry) → Table
id_bindings [] = []
id_bindings ((u, e) ∷ es) = (e.id, u) ∷ id_bindings es

reference_binding : Option Text → Text → Table
reference_binding none id = []
reference_binding (some r) id = (r, id) ∷ []

reference_bindings : List (Text × Entry) → Table
reference_bindings [] = []
reference_bindings ((u, e) ∷ es) =
    reference_binding (truthy e.reference) e.id ++ reference_bindings es

-- An entry that has an owner and a name.
abbrev IsTold : Text × Entry → Type 0
IsTold s = (text_eq s.1.owner [] || text_eq s.1.name [] ≡ false)

names-reindex :
    (u : Text) (e : Entry) (a : Manager)
    → IsTold (u, e)
    → (reindex u e a).names ≡ insert (entry_key u e) e.id a.names
unfolding reindex add_to_indexes add_remote_ref
names-reindex u e a h =
    rw h (elim (Bool-cases (is_remote e)) [ inl y ↦ rw y refl | inr n ↦ rw n refl ])

ids-reindex :
    (u : Text) (e : Entry) (a : Manager) → IsTold (u, e) → (reindex u e a).ids ≡ insert e.id u a.ids
unfolding reindex add_to_indexes add_remote_ref
ids-reindex u e a h =
    rw h (elim (Bool-cases (is_remote e)) [ inl y ↦ rw y refl | inr n ↦ rw n refl ])

references-reindex :
    (u : Text) (e : Entry) (a : Manager)
    → IsTold (u, e)
    → (reindex u e a).references ≡ insert_reference (truthy e.reference) e.id a.references
unfolding reindex add_to_indexes add_remote_ref
references-reindex u e a h =
    rw h (elim (Bool-cases (is_remote e)) [ inl y ↦ rw y refl | inr n ↦ rw n refl ])

names-reindex_all :
    (es : List (Text × Entry)) (a : Manager)
    → All IsTold es
    → (reindex_all es a).names ≡ insert_all (name_bindings es) a.names
unfolding reindex_all name_bindings
names-reindex_all [] a h = refl
names-reindex_all ((u, e) ∷ es) a (p, h) =
    names-reindex_all es (reindex u e a) h
    ∙ ap (insert_all (name_bindings es)) (names-reindex u e a p)

ids-reindex_all :
    (es : List (Text × Entry)) (a : Manager)
    → All IsTold es
    → (reindex_all es a).ids ≡ insert_all (id_bindings es) a.ids
unfolding reindex_all id_bindings
ids-reindex_all [] a h = refl
ids-reindex_all ((u, e) ∷ es) a (p, h) =
    ids-reindex_all es (reindex u e a) h ∙ ap (insert_all (id_bindings es)) (ids-reindex u e a p)

insert_all-reference :
    (o : Option Text) (id : Text) (bs a : Table)
    → insert_all bs (insert_reference o id a) ≡ insert_all (reference_binding o id ++ bs) a
unfolding insert_reference reference_binding
insert_all-reference none id bs a = refl
insert_all-reference (some r) id bs a = refl

references-reindex_all :
    (es : List (Text × Entry)) (a : Manager)
    → All IsTold es
    → (reindex_all es a).references ≡ insert_all (reference_bindings es) a.references
unfolding reindex_all reference_bindings
references-reindex_all [] a h = refl
references-reindex_all ((u, e) ∷ es) a (p, h) =
    references-reindex_all es (reindex u e a) h
    ∙ ap (insert_all (reference_bindings es)) (references-reindex u e a p)
    ∙ insert_all-reference (truthy e.reference) e.id (reference_bindings es) a.references

IsTold-IsStored : (m : Manager) (c : IsConsistent m) (s : Text × Entry) → IsStored m s → IsTold s
IsTold-IsStored m c (u, e) (id, h) =
    let p = c.proper u id e h in
    ground (arith, text_eq_iff e.owner [], text_eq_iff e.name [], p.owned, p.has_owner, p.has_name)

All-IsTold :
    (m : Manager) (c : IsConsistent m) (es : List (Text × Entry))
    → All (IsStored m) es
    → All IsTold es
All-IsTold m c [] h = tt
All-IsTold m c (s ∷ es) (p, h) = (IsTold-IsStored m c s p, All-IsTold m c es h)

module _ (m : Manager) (c : IsConsistent m) where
  names-Agrees :
      (es : List (Text × Entry)) → All (IsStored m) es → All (Agrees m.names) (name_bindings es)
  unfolding name_bindings
  names-Agrees [] h = tt
  names-Agrees ((u, e) ∷ es) ((id, p), h) =
      (c.named u id e p ∙ ap some (sym (c.proper u id e p).keyed), names-Agrees es h)

  ids-Agrees :
      (es : List (Text × Entry)) → All (IsStored m) es → All (Agrees m.ids) (id_bindings es)
  unfolding id_bindings
  ids-Agrees [] h = tt
  ids-Agrees ((u, e) ∷ es) ((id, p), h) =
      (ap (λ j. lookup j m.ids) (c.proper u id e p).keyed ∙ c.placed u id e p, ids-Agrees es h)

  reference-Agrees :
      (u id : Text) (e : Entry)
      → Has u id e m
      → All (Agrees m.references) (reference_binding (truthy e.reference) e.id)
  unfolding reference_binding
  reference-Agrees u id e p = elim (Option-cases (truthy e.reference)) [
    | inl absent ↦ rw (absent, All, reference_binding) tt
    | inr (r, is) ↦
        rw (is, All, reference_binding)
          (c.referable u id r e p is ∙ ap some (sym (c.proper u id e p).keyed), tt)
  ]

  references-Agrees :
      (es : List (Text × Entry))
      → All (IsStored m) es
      → All (Agrees m.references) (reference_bindings es)
  unfolding reference_bindings
  references-Agrees [] h = tt
  references-Agrees ((u, e) ∷ es) ((id, p), h) =
      All-append _ _ _ (reference-Agrees u id e p) (references-Agrees es h)

name_bindings-Memᴰ :
    (u : Text) (e : Entry) (es : List (Text × Entry))
    → Memᴰ (u, e) es
    → Memᴰ (entry_key u e, e.id) (name_bindings es)
unfolding name_bindings
name_bindings-Memᴰ u e [] h = elim h [ ]
name_bindings-Memᴰ u e (s ∷ es) (Memᴰ.head same) =
    Memᴰ.head (ap (λ s. (entry_key s.0 s.1, s.1.id)) same)
name_bindings-Memᴰ u e (s ∷ es) (Memᴰ.tail h) = Memᴰ.tail (name_bindings-Memᴰ u e es h)

id_bindings-Memᴰ :
    (u : Text) (e : Entry) (es : List (Text × Entry))
    → Memᴰ (u, e) es
    → Memᴰ (e.id, u) (id_bindings es)
unfolding id_bindings
id_bindings-Memᴰ u e [] h = elim h [ ]
id_bindings-Memᴰ u e (s ∷ es) (Memᴰ.head same) = Memᴰ.head (ap (λ s. (s.1.id, s.0)) same)
id_bindings-Memᴰ u e (s ∷ es) (Memᴰ.tail h) = Memᴰ.tail (id_bindings-Memᴰ u e es h)

reference_bindings-Memᴰ :
    (u r : Text) (e : Entry) (es : List (Text × Entry))
    → truthy e.reference ≡ some r
    → Memᴰ (u, e) es
    → Memᴰ (r, e.id) (reference_bindings es)
unfolding reference_bindings reference_binding
reference_bindings-Memᴰ u r e [] is h = elim h [ ]
reference_bindings-Memᴰ u r e ((v, f) ∷ es) is (Memᴰ.head same) =
    append_left (reference_bindings es) (
      subst (λ g. Memᴰ (r, e.id) (reference_binding (truthy g.reference) g.id)) (ap (λ s. s.1) same)
        (rw is (Memᴰ.head refl)))
reference_bindings-Memᴰ u r e ((v, f) ∷ es) is (Memᴰ.tail h) =
    append_right (reference_binding (truthy f.reference) f.id)
      (reference_bindings-Memᴰ u r e es is h)

-- On indexes and tables that are consistent, with a walk that comes by every user who has an
-- entry, rebuilding the tables changes no name, no id and no reference: each reads as before.
pub rebuild_indexes-same :
    (order : List Text) (m : Manager)
    → IsConsistent m
    → ((user id : Text) (e : Entry) → Has user id e m → Memᴰ user order)
    → (k : Text)
    → (lookup k (rebuild_indexes order m).names ≡ lookup k m.names)
      × (lookup k (rebuild_indexes order m).ids ≡ lookup k m.ids)
      × (lookup k (rebuild_indexes order m).references ≡ lookup k m.references)
unfolding rebuild_indexes
rebuild_indexes-same order m c known k =
    let es = all_entries order m in
    let stored = all_entries-IsStored order m in
    let told = All-IsTold m c es stored in
    (
      ap (lookup k) (names-reindex_all es _ told)
          ∙ insert_all-same m.names (name_bindings es) k (names-Agrees m c es stored) (λ v q.
            let (u, e, h, key) = c.names_back k v q in
            subst (λ b. Memᴰ b (name_bindings es)) (λ i. (key i, (c.proper u v e h).keyed i))
              (name_bindings-Memᴰ u e es (all_entries-Memᴰ order m u v e (known u v e h) h))),
      ap (lookup k) (ids-reindex_all es _ told)
          ∙ insert_all-same m.ids (id_bindings es) k (ids-Agrees m c es stored) (λ v q.
            let (e, h) = c.ids_back k v q in
            subst (λ b. Memᴰ b (id_bindings es)) (λ i. ((c.proper v k e h).keyed i, v))
              (id_bindings-Memᴰ v e es (all_entries-Memᴰ order m v k e (known v k e h) h))),
      ap (lookup k) (references-reindex_all es _ told)
          ∙ insert_all-same m.references (reference_bindings es) k (references-Agrees m c es stored)
              (λ v q.
                let (u, e, h, ref) = c.references_back k v q in
                subst (λ b. Memᴰ b (reference_bindings es)) (λ i. (k, (c.proper u v e h).keyed i))
                  (reference_bindings-Memᴰ u k e es ref
                    (all_entries-Memᴰ order m u v e (known u v e h) h))),
    )
