-- ===== src/Workspaces/Indexes/Consistent.antt =====
-- The users' indexes and the lookup tables of src/core/workspace/index.js belong together.
use mathlib.Core.Path.{subst}
use canvas_server.Prelude.{
  ◌≡◌, ◌≢◌, ◌⊎◌, false, ◌&&◌, none, some, [], arith, Text, text_eq, text_eq_iff, if◌then◌else◌,
  lookup, text_key, some-inj, sym, ◌∙◌, ap,
}
use canvas_server.Workspaces.References.RoundTrip.{Lacks}
use canvas_server.Workspaces.Indexes.Defs.{
  Entry, Manager, is_remote, entry_at, set_entry, delete_entry, truthy, host_of, entry_key,
  add_to_indexes, remove_from_indexes,
}
use canvas_server.Workspaces.Indexes.Puts.{entry_at-set_entry, entry_at-delete_entry}

abbrev pub Has : Text → Text → Entry → Manager → Type 0
Has user id e m = entry_at user id m ≡ some e

-- An entry is stored under its id with its owner, a reference that it has is its name key, and
-- the name of a local one holds no `@`.
pub record IsProper (user id : Text) (e : Entry) : Type 0 where
  pub keyed : e.id ≡ id
  pub owned : e.owner ≡ user
  pub has_id : id ≢ []
  pub has_owner : user ≢ []
  pub has_name : e.name ≢ []
  pub referred : (r : Text) → truthy e.reference ≡ some r → r ≡ entry_key user e
  pub plain : is_remote e ≡ false → Lacks b'@' e.name

-- Every entry is proper and is found by its name and by its id, and the tables hold nothing else.
pub record IsConsistent (m : Manager) : Type 0 where
  pub proper : (user id : Text) (e : Entry) → Has user id e m → IsProper user id e
  pub named :
      (user id : Text) (e : Entry) → Has user id e m → lookup (entry_key user e) m.names ≡ some id
  pub placed : (user id : Text) (e : Entry) → Has user id e m → lookup id m.ids ≡ some user
  pub referable :
      (user id r : Text) (e : Entry)
      → Has user id e m
      → truthy e.reference ≡ some r
      → lookup r m.references ≡ some id
  pub names_back :
      (k id : Text)
      → lookup k m.names ≡ some id
      → (user : Text) × (e : Entry) × Has user id e m × (entry_key user e ≡ k)
  pub ids_back : (id user : Text) → lookup id m.ids ≡ some user → (e : Entry) × Has user id e m
  pub references_back :
      (r id : Text)
      → lookup r m.references ≡ some id
      → (user : Text) × (e : Entry) × Has user id e m × (truthy e.reference ≡ some r)

-- `#getUserIndex(user).set` and `#addToIndexes` of an entry.
abbrev pub added : Text → Entry → Manager → Manager
added user e m =
    add_to_indexes user e.id e.name (host_of e.host) e.reference (set_entry user e.id e m)

-- `#getUserIndex(user).delete` and `#removeFromIndexes` of an entry.
abbrev pub dropped : Text → Entry → Manager → Manager
dropped user e m =
    remove_from_indexes user e.id e.name (host_of e.host) e.reference (delete_entry user e.id m)

entry_at-added :
    (u v j : Text) (e : Entry) (m : Manager)
    → entry_at v j (added u e m)
      ≡ (if text_eq u v && text_eq e.id j then some e else entry_at v j m)
unfolding entry_at add_to_indexes
entry_at-added u v j e m = entry_at-set_entry u v e.id j e m

entry_at-dropped :
    (u v j : Text) (e : Entry) (m : Manager)
    → entry_at v j (dropped u e m)
      ≡ (if text_eq u v && text_eq e.id j then none else entry_at v j m)
unfolding entry_at remove_from_indexes
entry_at-dropped u v j e m = entry_at-delete_entry u v e.id j m

pub added-cases :
    (m : Manager) (u : Text) (e : Entry) (v j : Text) (f : Entry)
    → Has v j f (added u e m)
    → ((u ≡ v) × (e.id ≡ j) × (e ≡ f)) ⊎ Has v j f m
added-cases m u e v j f h =
    ground (arith, text_eq_iff u v, text_eq_iff e.id j, entry_at-added u v j e m)

pub added-old :
    (m : Manager) (c : IsConsistent m) (u : Text) (e : Entry) (v j : Text) (f : Entry)
    → lookup e.id m.ids ≡ none
    → Has v j f m
    → Has v j f (added u e m)
added-old m c u e v j f new h =
    ground (arith, text_eq_iff u v, text_eq_iff e.id j, entry_at-added u v j e m, c.placed v j f h)

pub added-new : (m : Manager) (u : Text) (e : Entry) → Has u e.id e (added u e m)
added-new m u e =
    ground (arith, text_eq_iff u u, text_eq_iff e.id e.id, entry_at-added u u e.id e m)

pub dropped-cases :
    (m : Manager) (c : IsConsistent m) (u : Text) (e : Entry) (v j : Text) (f : Entry)
    → Has u e.id e m
    → Has v j f (dropped u e m)
    → (e.id ≢ j) × Has v j f m
dropped-cases m c u e v j f now h =
    let kept : Has v j f m =
      ground (arith, text_eq_iff u v, text_eq_iff e.id j, entry_at-dropped u v j e m) in
    (
      λ same. ground (
        arith,
        text_eq_iff u v,
        text_eq_iff e.id j,
        entry_at-dropped u v j e m,
        c.placed u e.id e now,
        c.placed v j f kept,
        same,
      ),
      kept,
    )

pub dropped-old :
    (m : Manager) (u : Text) (e : Entry) (v j : Text) (f : Entry)
    → Has v j f m
    → e.id ≢ j
    → Has v j f (dropped u e m)
dropped-old m u e v j f h other = ground (arith, text_eq_iff e.id j, entry_at-dropped u v j e m)

-- An id is stored once.
pub Has-unique :
    (m : Manager) (c : IsConsistent m) (u v i j : Text) (e f : Entry)
    → Has u i e m
    → Has v j f m
    → i ≡ j
    → (u ≡ v) × (e ≡ f)
Has-unique m c u v i j e f h k same =
    let k' : Has v i f m = subst (λ x. Has v x f m) (sym same) k in
    let user : u ≡ v = some-inj (sym (c.placed u i e h) ∙ c.placed v i f k') in
    (user, some-inj (sym h ∙ ap (λ x. entry_at x i m) user ∙ k'))
