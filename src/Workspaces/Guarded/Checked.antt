-- ===== src/Workspaces/Guarded/Checked.antt =====
-- Who gets an instance of a workspace from src/core/workspace/index.js.
use mathlib.Core.Path.{subst}
use canvas_server.Prelude.{
  ◌≡◌, ◌≢◌, ◌⊎◌, refl, inl, inr, Bool, true, false, ◌||◌, Option, none, some, [], arith, Text,
  text_eq, text_eq_iff, if◌then◌else◌, lookup, text_key, Bool-cases, Option-cases, sym, ◌∙◌, ap,
  or_else,
}
use canvas_server.Access.Permissions.{Permission}
use canvas_server.Access.Resolve.{Access}
use canvas_server.Gate.Request.{Call, thrown, returned}
use canvas_server.Workspaces.Indexes.Defs.{Entry, Loaded, Manager, truthy, is_remote}
use canvas_server.Workspaces.Indexes.Consistent.{Has, IsConsistent, Has-unique}
use canvas_server.Workspaces.Indexes.Found.{find_in_index-Has}
use canvas_server.Workspaces.Guarded.{
  World, Outcome, failed, got, access_denied, workspace_not_ready, load_remote, load_local, carries,
  acl_for, share_of, rights_of_share, entry_rights, resolve_workspace_access, judged,
  assert_shared_access, guarded, get_cached, get_indexed, get_workspace_or_throw,
}

-- The share of a user in an entry: remote entries have none.
abbrev pub share : World → Entry → Text → Manager → Option Access
share w e user_id m =
    if is_remote e then none else share_of w (acl_for w e m) (w.principal_for user_id)

abbrev pub share_carries : Option Access → Permission → Bool
share_carries none p = false
share_carries (some a) p = carries a.permissions p

refuse : (t : Text) → t ≢ [] → text_eq t [] ≡ false
refuse t h = ground (arith, text_eq_iff t [])

judged-share :
    (e : Entry) (s : Option Access) (p : Permission)
    → judged (rights_of_share e s) (some p)
      ≡ (if share_carries s p then none else some access_denied)
judged-share e none p = refl
judged-share e (some a) p = refl

module _ (w : World) (m : Manager) (c : IsConsistent m) where
  -- On consistent indexes a user who is not the owner has the rights of the share.
  pub resolve_workspace_access-shared :
      (u id user_id : Text) (e : Entry)
      → Has u id e m
      → user_id ≢ []
      → u ≢ user_id
      → resolve_workspace_access w id user_id m ≡ (rights_of_share e (share w e user_id m), m)
  unfolding resolve_workspace_access entry_rights
  resolve_workspace_access-shared u id user_id e h filled other =
      let f = find_in_index-Has w.order m u id e c h in
      rw f (
        ground (
          arith,
          text_eq_iff user_id [],
          text_eq_iff e.owner user_id,
          (c.proper u id e h).owned,
          filled,
          other,
        ))

  -- The guard lets exactly the owner and the users pass whose share carries the permission.
  pub guarded-exact :
      (u id user_id : Text) (e : Entry) (p : Permission)
      → Has u id e m
      → user_id ≢ []
      → guarded w u id user_id (some p) m ≡ (
        (if text_eq u user_id || share_carries (share w e user_id m) p
            then none
            else some access_denied),
        m,
      )
  unfolding guarded assert_shared_access
  guarded-exact u id user_id e p h filled = elim (Bool-cases (text_eq u user_id)) [
    | inl mine ↦ rw (mine, guarded) (ground (arith, text_eq_iff user_id []))
    | inr not_mine ↦
        rw (not_mine, guarded)
          (rw (refuse user_id filled) (
            ap (λ r. (judged r.0 (some p), r.1))
              (resolve_workspace_access-shared u id user_id e h filled
                (λ same. ground (arith, text_eq_iff u user_id)))
            ∙ ap (λ o. (o, m)) (judged-share e (share w e user_id m) p)))
  ]

-- An instance in memory has the owner under whom its entry is stored.
abbrev pub IsAligned : Manager → Type 0
IsAligned m =
    (id : Text) (ws : Loaded) → lookup id m.loaded ≡ some ws → (e : Entry) × Has ws.owner id e m

abbrev pub allowed : World → Text → Entry → Text → Permission → Manager → Bool
allowed w u e user_id p m = text_eq u user_id || share_carries (share w e user_id m) p

-- An instance, or the answer that it is not ready.
abbrev pub IsAdmitted : Outcome → Type 0
IsAdmitted o = ((ws : Loaded) × (o ≡ got ws)) ⊎ (o ≡ failed workspace_not_ready)

load_remote-IsAdmitted :
    (w : World) (id : Text) (e : Entry) (m : Manager) → IsAdmitted (load_remote w id e m).0
unfolding load_remote
load_remote-IsAdmitted w id e m =
    elim (Option-cases (lookup e.id (or_else (lookup e.owner m.remote_indexes) []))) [
      | inl absent ↦ rw (absent, load_remote) (inr refl)
      | inr (k, there) ↦
          rw (there, load_remote)
            (elim (Bool-cases (text_eq k.token [])) [
              | inl empty ↦ rw empty (inr refl)
              | inr full ↦ rw full (inl (w.remote_instance e k, refl))
            ])
    ]

pub Call-cases : {A : Type 0} (x : Call A) → (x ≡ thrown) ⊎ ((y : A) × (x ≡ returned y))
Call-cases thrown = inl refl
Call-cases (returned y) = inr (y, refl)

load_local-IsAdmitted :
    (w : World) (id : Text) (e : Entry) (m : Manager) → IsAdmitted (load_local w id e m).0
unfolding load_local
load_local-IsAdmitted w id e m = elim (Option-cases (truthy e.config_path)) [
  | inl absent ↦ rw (absent, load_local) (inr refl)
  | inr (path, there) ↦
      rw (there, load_local)
        (elim (Option-cases (w.read_config path)) [
          | inl gone ↦ rw gone (inr refl)
          | inr (file, found) ↦ rw found (elim (Call-cases (w.instantiate e)) [
            | inl broken ↦ rw broken (inr refl)
            | inr (ws, made) ↦ rw made (inl (ws, refl))
          ])
        ])
]

module _ (w : World) (m : Manager) (c : IsConsistent m) (a : IsAligned m) (id user_id : Text)
    (p : Permission) (filled : user_id ≢ []) where
  -- On a stored entry the guard of the branch that is taken is the entry's.
  guarded-allowed :
      (u : Text) (e : Entry)
      → Has u id e m
      → allowed w u e user_id p m ≡ true
      → guarded w u id user_id (some p) m ≡ (none, m)
  guarded-allowed u e h ok = guarded-exact w m c u id user_id e p h filled ∙ rw ok refl

  guarded-refused :
      (u : Text) (e : Entry)
      → Has u id e m
      → allowed w u e user_id p m ≡ false
      → guarded w u id user_id (some p) m ≡ (some access_denied, m)
  guarded-refused u e h no_way = guarded-exact w m c u id user_id e p h filled ∙ rw no_way refl

  instance_owner :
      (u : Text) (e : Entry)
      → Has u id e m
      → (ws : Loaded) → lookup id m.loaded ≡ some ws
      → u ≡ ws.owner
  instance_owner u e h ws warm =
      let (f, g) = a id ws warm in (Has-unique m c u ws.owner id id e f h g refl).0

  -- A user who is neither the owner nor holds a share that carries the permission is denied, and
  -- nothing changes.
  pub get_workspace_or_throw-denied :
      (u : Text) (e : Entry)
      → Has u id e m
      → allowed w u e user_id p m ≡ false
      → get_workspace_or_throw w id user_id (some p) m ≡ (failed access_denied, m)
  unfolding get_workspace_or_throw get_cached get_indexed
  get_workspace_or_throw-denied u e h no_way =
      let guard : (v : Text) → u ≡ v → guarded w v id user_id (some p) m ≡ (some access_denied, m) =
        λ v same.
          subst (λ v. guarded w v id user_id (some p) m ≡ (some access_denied, m)) same
            (guarded-refused u e h no_way) in
      elim (Option-cases (lookup id m.loaded)) [
        | inl cold ↦
            rw (cold, get_workspace_or_throw)
              (rw (find_in_index-Has w.order m u id e c h)
                (rw (guard e.owner (sym (c.proper u id e h).owned), get_indexed) refl))
        | inr (ws, warm) ↦
            rw (warm, get_workspace_or_throw)
              (rw (guard ws.owner (instance_owner u e h ws warm), get_cached) refl)
      ]

  -- The owner, and a user with a share that carries the permission, get the instance or the answer
  -- that it is not ready.
  pub get_workspace_or_throw-IsAdmitted :
      (u : Text) (e : Entry)
      → Has u id e m
      → allowed w u e user_id p m ≡ true
      → IsAdmitted (get_workspace_or_throw w id user_id (some p) m).0
  unfolding get_workspace_or_throw get_cached get_indexed
  get_workspace_or_throw-IsAdmitted u e h ok =
      let guard : (v : Text) → u ≡ v → guarded w v id user_id (some p) m ≡ (none, m) = λ v same.
        subst (λ v. guarded w v id user_id (some p) m ≡ (none, m)) same
          (guarded-allowed u e h ok) in
      elim (Option-cases (lookup id m.loaded)) [
        | inl cold ↦
            rw (cold, get_workspace_or_throw)
              (rw (find_in_index-Has w.order m u id e c h) (
                rw (guard e.owner (sym (c.proper u id e h).owned), get_indexed)
                  (elim (Bool-cases (is_remote e)) [
                    | inl far ↦ rw far (load_remote-IsAdmitted w id e m)
                    | inr near ↦ rw near (load_local-IsAdmitted w id e m)
                  ])))
        | inr (ws, warm) ↦
            rw (warm, get_workspace_or_throw)
              (rw (guard ws.owner (instance_owner u e h ws warm), get_cached) (inl (ws, refl)))
      ]

-- On consistent indexes, with instances in memory that have their entries' owners, a user who asks
-- for a stored workspace with a permission gets the instance, or the answer that it is not ready,
-- if he is the owner or the workspace is local and an entry of its ACL gives him that permission;
-- in every other case he is denied access and nothing changes.
pub get_workspace_or_throw-exact :
    (w : World) (m : Manager) (u id user_id : Text) (e : Entry) (p : Permission)
    → IsConsistent m
    → IsAligned m
    → user_id ≢ []
    → Has u id e m
    → ((allowed w u e user_id p m ≡ true)
        × IsAdmitted (get_workspace_or_throw w id user_id (some p) m).0)
      ⊎ ((allowed w u e user_id p m ≡ false)
          × (get_workspace_or_throw w id user_id (some p) m ≡ (failed access_denied, m)))
get_workspace_or_throw-exact w m u id user_id e p c a filled h =
    elim (Bool-cases (allowed w u e user_id p m)) [
      | inl ok ↦ inl (ok, get_workspace_or_throw-IsAdmitted w m c a id user_id p filled u e h ok)
      | inr no_way ↦
          inr (no_way, get_workspace_or_throw-denied w m c a id user_id p filled u e h no_way)
    ]
