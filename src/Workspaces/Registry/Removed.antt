-- ===== src/Workspaces/Registry/Removed.antt =====
-- Removed workspaces of src/core/workspace/index.js.
use mathlib.Core.Path.{subst}
use canvas_server.Prelude.{
  ◌≡◌, ◌⊎◌, refl, inl, inr, Bool, true, ◌||◌, Option, none, some, List, [], arith, Text, text_eq,
  text_eq_iff, lookup, insert, remove, text_key, Bool-cases, Option-cases, some-inj, none-ne-some,
  sym, ◌∙◌, ap, or_else,
}
use canvas_server.Access.Permissions.{Permission, read}
use canvas_server.Workspaces.References.{default_host}
use canvas_server.Workspaces.Indexes.Defs.{
  Entry, Loaded, Manager, truthy, is_remote, entry_at, delete_entry, remove_from_indexes,
  find_in_index,
}
use canvas_server.Workspaces.Indexes.Consistent.{Has, IsConsistent, dropped, dropped-cases}
use canvas_server.Workspaces.Indexes.Dropped.{IsConsistent-dropped}
use canvas_server.Workspaces.Indexes.Found.{find_in_index-same, find_in_index-some}
use canvas_server.Workspaces.Names.{
  resolve_workspace_id, get_workspace_index_entry, found_by_name, entry_or_named, owned_only,
}
use canvas_server.Workspaces.Guarded.{
  World, Failure, load_remote, load_local, loaded_after, cached_after, get_cached, get_indexed,
  get_workspace_or_throw, get_workspace, guarded, assert_shared_access, resolve_workspace_access,
}
use canvas_server.Workspaces.Guarded.Checked.{Call-cases}
use canvas_server.Workspaces.Registry.{
  unloaded, without_credentials, removed, removed_entry, remove_workspace,
}
use canvas_server.Workspaces.Registry.Moves.{IsConsistent-beside}

-- Only instances in memory differ.
abbrev Beside : Manager → Manager → Type 0
Beside m k = (l : List (Text × Loaded)) × (k ≡ record m { loaded = l })

guarded-same :
    (w : World) (owner id user_id : Text) (p : Option Permission) (m : Manager)
    → IsConsistent m
    → (guarded w owner id user_id p m).1 ≡ m
unfolding guarded assert_shared_access resolve_workspace_access
guarded-same w owner id user_id p m c =
    elim (Bool-cases (text_eq user_id [] || text_eq owner user_id)) [
      | inl y ↦ rw (y, guarded) refl
      | inr n ↦ rw (n, guarded) (find_in_index-same w.order m id c)
    ]

load_remote-Beside :
    (w : World) (id : Text) (e : Entry) (m : Manager) → Beside m (load_remote w id e m).1
unfolding load_remote
load_remote-Beside w id e m =
    elim (Option-cases (lookup e.id (or_else (lookup e.owner m.remote_indexes) []))) [
      | inl absent ↦ rw (absent, load_remote) (m.loaded, refl)
      | inr (k, there) ↦
          rw (there, load_remote)
            (elim (Bool-cases (text_eq k.token [])) [
              | inl empty ↦ rw empty (m.loaded, refl)
              | inr full ↦ rw full (insert id (w.remote_instance e k) m.loaded, refl)
            ])
    ]

load_local-Beside :
    (w : World) (id : Text) (e : Entry) (m : Manager) → Beside m (load_local w id e m).1
unfolding load_local
load_local-Beside w id e m = elim (Option-cases (truthy e.config_path)) [
  | inl absent ↦ rw (absent, load_local) (m.loaded, refl)
  | inr (path, there) ↦
      rw (there, load_local)
        (elim (Option-cases (w.read_config path)) [
          | inl gone ↦ rw gone (m.loaded, refl)
          | inr (file, found) ↦ rw found (elim (Call-cases (w.instantiate e)) [
            | inl broken ↦ rw broken (m.loaded, refl)
            | inr (ws, made) ↦ rw made (insert id ws m.loaded, refl)
          ])
        ])
]

loaded_after-Beside :
    (w : World) (id : Text) (e : Entry) (o : Option Failure) (m : Manager)
    → Beside m (loaded_after w id e (o, m)).1
loaded_after-Beside w id e (some f) m = (m.loaded, refl)
loaded_after-Beside w id e none m = elim (Bool-cases (is_remote e)) [
  | inl far ↦ rw far (load_remote-Beside w id e m)
  | inr near ↦ rw near (load_local-Beside w id e m)
]

cached_after-Beside :
    (ws : Loaded) (o : Option Failure) (m : Manager) → Beside m (cached_after ws (o, m)).1
cached_after-Beside ws (some f) m = (m.loaded, refl)
cached_after-Beside ws none m = (m.loaded, refl)

get_indexed-Beside :
    (w : World) (id user_id : Text) (p : Option Permission) (m : Manager) (o : Option Entry)
    → IsConsistent m
    → Beside m (get_indexed w id user_id p m o).1
unfolding get_indexed
get_indexed-Beside w id user_id p m none c = (m.loaded, refl)
get_indexed-Beside w id user_id p m (some e) c =
    subst (λ k. Beside m (loaded_after w id e ((guarded w e.owner id user_id p m).0, k)).1)
      (sym (guarded-same w e.owner id user_id p m c))
      (loaded_after-Beside w id e (guarded w e.owner id user_id p m).0 m)

-- On consistent indexes a request for an instance changes only what is in memory.
pub get_workspace-Beside :
    (w : World) (id user_id : Text) (p : Option Permission) (m : Manager)
    → IsConsistent m
    → Beside m (get_workspace w id user_id p m).1
unfolding get_workspace get_workspace_or_throw get_cached
get_workspace-Beside w id user_id p m c = elim (Option-cases (lookup id m.loaded)) [
  | inl cold ↦
      rw (cold, get_workspace, get_workspace_or_throw)
        (subst (λ k. Beside m (get_indexed w id user_id p k (find_in_index w.order id m).0).1)
          (sym (find_in_index-same w.order m id c))
          (get_indexed-Beside w id user_id p m (find_in_index w.order id m).0 c))
  | inr (ws, warm) ↦
      rw (warm, get_workspace, get_workspace_or_throw)
        (subst (λ k. Beside m (cached_after ws ((guarded w ws.owner id user_id p m).0, k)).1)
          (sym (guarded-same w ws.owner id user_id p m c))
          (cached_after-Beside ws (guarded w ws.owner id user_id p m).0 m))
]

-- A lookup that changed nothing and found a stored entry or none.
abbrev Settled : Manager → Option Entry × Manager → Type 0
Settled m r = (r.1 ≡ m) × ((e : Entry) → r.0 ≡ some e → Has e.owner e.id e m)

find_in_index-Settled :
    (order : List Text) (id : Text) (m : Manager)
    → IsConsistent m
    → Settled m (find_in_index order id m)
find_in_index-Settled order id m c =
    (find_in_index-same order m id c, λ e found. (find_in_index-some order m id e c found).0)

entry_or_named-Settled :
    (w : World) (id user_id : Text) (m : Manager) (r : Option Entry × Manager)
    → IsConsistent m
    → Settled m r
    → Settled m (entry_or_named w id user_id r)
entry_or_named-Settled w id user_id m (some e, k) c h = h
entry_or_named-Settled w id user_id m (none, k) c (same, stored) =
    subst (λ k. Settled m (entry_or_named w id user_id (none, k))) (sym same)
      (elim (Bool-cases (text_eq user_id [])) [
        | inl nobody ↦ rw (nobody, entry_or_named) (refl, λ e x. absurd (none-ne-some x))
        | inr somebody ↦
            rw (somebody, entry_or_named)
              (elim (Option-cases (resolve_workspace_id w user_id id default_host m)) [
                | inl unknown ↦ rw (unknown, found_by_name) (refl, λ e x. absurd (none-ne-some x))
                | inr (j, known) ↦ rw (known, found_by_name) (find_in_index-Settled w.order j m c)
              ])
      ])

owned_only-some :
    (user_id : Text) (o : Option Entry) (e : Entry)
    → owned_only user_id o ≡ some e
    → (o ≡ some e) × ((user_id ≡ []) ⊎ (e.owner ≡ user_id))
owned_only-some user_id none e h = absurd (none-ne-some h)
owned_only-some user_id (some f) e h = elim (Bool-cases (text_eq user_id [])) [
  | inl nobody ↦ (rw (nobody, owned_only) at h, inl ((text_eq_iff user_id []).0 nobody))
  | inr somebody ↦ elim (Bool-cases (text_eq f.owner user_id)) [
    | inl theirs ↦
        let same : some f ≡ some e = rw (somebody, theirs, owned_only) at h in
        (
          same,
          inr (ap (λ g. g.owner) (some-inj (sym same)) ∙ (text_eq_iff f.owner user_id).0 theirs),
        )
    | inr other ↦ absurd (none-ne-some (rw (somebody, other, owned_only) at h))
  ]
]

-- What `getWorkspaceIndexEntry` returns on consistent indexes is stored, and the user's if one is
-- named; it changes nothing.
pub get_workspace_index_entry-stored :
    (w : World) (id user_id : Text) (m : Manager)
    → IsConsistent m
    → ((get_workspace_index_entry w id user_id m).1 ≡ m)
      × ((e : Entry)
          → (get_workspace_index_entry w id user_id m).0 ≡ some e
          → Has e.owner e.id e m × ((user_id ≡ []) ⊎ (e.owner ≡ user_id)))
unfolding get_workspace_index_entry
get_workspace_index_entry-stored w id user_id m c =
    let (same, stored) =
      entry_or_named-Settled w id user_id m (find_in_index w.order id m) c
        (find_in_index-Settled w.order id m c) in
    (same, λ e h. let (found, whose) = owned_only-some user_id _ e h in (stored e found, whose))

removed-IsConsistent :
    (m : Manager) (e : Entry) (l : List (Text × Loaded))
    → IsConsistent m
    → Has e.owner e.id e m
    → IsConsistent (removed e (record m { loaded = l }))
      × ((u : Text) (g : Entry) → Has u e.id g (removed e (record m { loaded = l })) → ⊥)
unfolding unloaded remove_from_indexes delete_entry entry_at
removed-IsConsistent m e l c h = (
  IsConsistent-beside (dropped e.owner e m) (without_credentials e m.remote_indexes) _
      (remove e.id l) (IsConsistent-dropped m e.owner e c h),
  λ u g x. (dropped-cases m c e.owner e u e.id g h x).0 refl,
)

-- What a removal promises: the tables stay consistent, and if it says so, some entry, the user's
-- if one is named, stands under its id with nobody any more.
abbrev pub IsRemoval : Text → Manager → Bool × Manager → Type 0
IsRemoval user_id m r =
    IsConsistent r.1
    × ((r.0 ≡ true)
        → (e : Entry) × Has e.owner e.id e m
          × ((user_id ≡ []) ⊎ (e.owner ≡ user_id))
          × ((u : Text) (g : Entry) → Has u e.id g r.1 → ⊥))

removed_entry-IsRemoval :
    (w : World) (user_id : Text) (m : Manager) (o : Option Entry)
    → IsConsistent m
    → ((e : Entry) → o ≡ some e → Has e.owner e.id e m × ((user_id ≡ []) ⊎ (e.owner ≡ user_id)))
    → IsRemoval user_id m (removed_entry w user_id o m)
removed_entry-IsRemoval w user_id m none c stored = (c, λ x. absurd (ground arith))
removed_entry-IsRemoval w user_id m (some e) c stored =
    let (l, beside) = get_workspace-Beside w e.id user_id (some read) m c in
    let (h, whose) = stored e refl in
    let (d, gone) = removed-IsConsistent m e l c h in
    subst (λ k. IsRemoval user_id m (true, removed e k)) (sym beside) (d, λ x. (e, h, whose, gone))

-- Removing a workspace on consistent indexes leaves them consistent, whether or not it finds an
-- entry. If it says that it removed one, an entry that was stored, for the user who is named if
-- one is, stands under its id with no user any more.
pub remove_workspace-IsRemoval :
    (w : World) (m : Manager) (id user_id : Text)
    → IsConsistent m
    → IsRemoval user_id m (remove_workspace w id user_id m)
unfolding remove_workspace
remove_workspace-IsRemoval w m id user_id c =
    let (same, stored) = get_workspace_index_entry-stored w id user_id m c in
    subst
      (λ k.
        IsRemoval user_id m
          (removed_entry w user_id (get_workspace_index_entry w id user_id m).0 k))
      (sym same)
      (removed_entry-IsRemoval w user_id m (get_workspace_index_entry w id user_id m).0 c stored)
