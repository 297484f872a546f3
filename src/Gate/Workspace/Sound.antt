-- ===== src/Gate/Workspace/Sound.antt =====
-- The permissions behind each grant of src/transports/middleware/workspace-acl.js.
use mathlib.Core.Path.{subst}
use Prim.Native.String.{◌++◌}
use canvas_server.Prelude.{
  ℕ, ◌≡◌, ◌≢◌, refl, ap, inl, inr, Bool, true, false, ◌||◌, not, Option, none, some, List, [],
  arith, String, ◌==◌, Text, codes, starts_with, or_else, if◌then◌else◌, Bool-cases, Option-cases,
  some-inj, none-ne-some, eq_iff,
}
use canvas_server.Access.Permissions.{Permission, read, write, admin}
use canvas_server.Access.Resolve.{Token}
use canvas_server.Access.Tokens.{has_expired}
use canvas_server.Gate.Request.{
  Call, thrown, returned, Workspace, Entry, Resolved, Server, Binding, index, Via, agent_token,
  share_token, index_owner, Granted, Verdict, granted, server_error, permission_name, has_name,
  is_named, permits, all_permissions, non_empty, caught,
}
use canvas_server.Gate.Lookup.{
  own, id_of, try_owner_access, worth, find_workspace_by_token_hash, try_token_access, share_of,
  try_member_access,
}
use canvas_server.Gate.Workspace.{
  grant_target, bound_verdict, agent_load, agent_checked, share_verdict, member_verdict,
  shared_verdict, fallback, user_verdict,
}

-- The property holds of the access, if one is granted.
abbrev pub Sat : (Granted → Type 0) → Verdict → Type 0
Sat P (granted g) = P g
Sat P _ = Unit

pub Sat-granted : (P : Granted → Type 0) (v : Verdict) (g : Granted) → v ≡ granted g → Sat P v → P g
Sat-granted P v g e h = subst (Sat P) e h

-- A verdict that grants nothing is none that does.
abbrev IsDenied : Verdict → Type 0
IsDenied (granted g) = ⊥
IsDenied _ = Unit

pub denied-ne-granted : (v : Verdict) (g : Granted) → IsDenied v → v ≢ granted g
denied-ne-granted v g d e = subst IsDenied e d

pub some_string : (s t : String) → non_empty (some s) ≡ some t → t ≡ s
some_string s t h = ground arith

module _ (server : Server) where
  -- The workspace has no owner on record, or the user is its owner.
  abbrev pub IsOwn : String → Workspace → Type 0
  IsOwn user w = or_else (non_empty w.owner) user ≡ user

  pub own-IsOwn :
      (user : String) (o : Option Workspace) (w : Workspace)
      → own server user o ≡ some w
      → IsOwn user w
  unfolding own
  own-IsOwn user none w h = cc
  own-IsOwn user (some x) w h = elim (Option-cases (non_empty x.owner)) [
    | inl free ↦ let e : x ≡ w = some-inj (rw (free, own) at h) in subst (IsOwn user) e (rw free)
    | inr (o, held) ↦ elim (Bool-cases (o == user)) [
      | inl same ↦
          let e : x ≡ w = some-inj (rw (held, same, own) at h) in
          subst (IsOwn user) e (rw held ((eq_iff o user).0 same))
      | inr differ ↦ absurd (none-ne-some (rw (held, differ, own) at h))
    ]
  ]

  abbrev pub HasPermission : Permission → Granted → Type 0
  HasPermission required g = has_name g.permissions (permission_name required) ≡ true

  has-all : (required : Permission) → has_name all_permissions (permission_name required) ≡ true
  has-all read = refl
  has-all write = refl
  has-all admin = refl

  permits-or_else :
      (o : Option (List String)) (name : String)
      → permits o name ≡ true
      → has_name (or_else o []) name ≡ true
  permits-or_else none name h = cc
  permits-or_else (some ps) name h = h

  permits-some :
      (o : Option (List String)) (name : String) (ps : List String)
      → permits o name ≡ true
      → o ≡ some ps
      → has_name ps name ≡ true
  permits-some none name ps h e = cc
  permits-some (some qs) name ps h e = subst (λ x. has_name x name ≡ true) (some-inj e) h

  bound-permitted :
      (required : Permission) (via : Via) (b : Binding) (c : Call (Option Workspace))
      → permits b.permissions (permission_name required) ≡ true
      → Sat (HasPermission required) (bound_verdict via b c)
  unfolding bound_verdict
  bound-permitted required via b thrown h = tt
  bound-permitted required via b (returned none) h = tt
  bound-permitted required via b (returned (some w)) h = permits-or_else b.permissions _ h

  worth-permitted :
      (now : ℕ) (required : Permission) (t : Token) (ps : List String)
      → worth server now required t ≡ some ps
      → (has_name ps (permission_name required) ≡ true) × (has_expired now t.expires_at ≡ false)
  unfolding worth
  worth-permitted now required t ps h = elim (Bool-cases (has_expired now t.expires_at)) [
    | inl late ↦ absurd (none-ne-some (rw (late, worth) at h))
    | inr live ↦ elim (Bool-cases (permits t.permissions (permission_name required))) [
      | inl allowed ↦
          (permits-some t.permissions _ ps allowed (rw (live, allowed, worth) at h), live)
      | inr refused ↦ absurd (none-ne-some (rw (live, refused, worth) at h))
    ]
  ]

  share_of-permitted :
      (required : Permission) (o : Option Resolved) (access : Resolved)
      → share_of server required o ≡ some access
      → has_name access.permissions (permission_name required) ≡ true
  unfolding share_of
  share_of-permitted required none access h = cc
  share_of-permitted required (some x) access h =
      elim (Bool-cases (x.is_owner || not (has_name x.permissions (permission_name required)))) [
        | inl denied ↦ absurd (none-ne-some (rw (denied, share_of) at h))
        | inr admitted ↦
            subst (λ y. has_name y.permissions (permission_name required) ≡ true)
              (some-inj (rw (admitted, share_of) at h)) (ground arith)
      ]

  agent_load-permitted :
      (required : Permission) (b : Binding) (user : Option String) (c : Call String)
      → permits b.permissions (permission_name required) ≡ true
      → Sat (HasPermission required) (agent_load server b user c)
  unfolding agent_load
  agent_load-permitted required b user thrown h = tt
  agent_load-permitted required b none (returned t) h = tt
  agent_load-permitted required b (some user) (returned t) h =
      bound-permitted required agent_token b (server.get_workspace t (some user)) h

  pub agent_checked-permitted :
      (required : Permission) (b : Binding) (user : Option String) (id : String) (c : Call Bool)
      → Sat (HasPermission required) (agent_checked server required b user id c)
  unfolding agent_checked
  agent_checked-permitted required b user id thrown = tt
  agent_checked-permitted required b user id (returned false) = tt
  agent_checked-permitted required b user id (returned true) =
      elim (Bool-cases (permits b.permissions (permission_name required))) [
        | inl allowed ↦ rw allowed (agent_load-permitted required b user _ allowed)
        | inr refused ↦ rw refused tt
      ]

  pub share-permitted :
      (required : Permission) (b : Binding) (user : Option String) (id : String)
      → Sat (HasPermission required) (share_verdict server required b user id)
  unfolding share_verdict
  share-permitted required b user id =
      elim (Bool-cases (id == b.workspace_id || is_named id b.workspace_name)) [
        | inl here ↦ elim (Bool-cases (permits b.permissions (permission_name required))) [
          | inl allowed ↦ rw (here, allowed) (bound-permitted required share_token b _ allowed)
          | inr refused ↦ rw (here, refused) tt
        ]
        | inr elsewhere ↦ rw elsewhere tt
      ]

  try_token-permitted :
      (now : ℕ) (id : String) (token : Text) (required : Permission) (w : Workspace)
      (ps : List String)
      → try_token_access server now id token required ≡ some (w, ps)
      → has_name ps (permission_name required) ≡ true
  unfolding try_token_access
  try_token-permitted now id token required w ps h =
      elim (Option-cases
        (find_workspace_by_token_hash server id ("sha256:" ++ server.sha256 token))) [
          | inl unknown ↦ absurd (none-ne-some (rw (unknown, try_token_access) at h))
          | inr (hit, known) ↦ elim (Option-cases (worth server now required hit.1)) [
            | inl useless ↦ absurd (none-ne-some (rw (known, useless, try_token_access) at h))
            | inr (qs, useful) ↦ elim (Option-cases (caught (server.get_workspace hit.0.id none))) [
              | inl broken ↦
                  absurd (none-ne-some (rw (known, useful, broken, try_token_access) at h))
              | inr (x, loaded) ↦
                  subst (λ xs. has_name xs (permission_name required) ≡ true)
                    (ap (λ y. y.1) (some-inj (rw (known, useful, loaded, try_token_access) at h)))
                    (worth-permitted now required hit.1 qs useful).0
            ]
          ]
        ]

  try_member-permitted :
      (id user : String) (required : Permission) (w : Workspace) (ps : List String)
      → try_member_access server id user required ≡ some (w, ps)
      → has_name ps (permission_name required) ≡ true
  unfolding try_member_access
  try_member-permitted id user required w ps h = elim (Option-cases (id_of server user id)) [
    | inl nowhere ↦ absurd (none-ne-some (rw (nowhere, try_member_access) at h))
    | inr (key, at) ↦
        elim (Option-cases (share_of server required (caught (server.resolve_access key user)))) [
          | inl nothing ↦ absurd (none-ne-some (rw (at, nothing, try_member_access) at h))
          | inr (access, share) ↦
              elim (Option-cases (caught (server.get_workspace key access.owner))) [
                | inl broken ↦
                    absurd (none-ne-some (rw (at, share, broken, try_member_access) at h))
                | inr (x, loaded) ↦
                    subst (λ qs. has_name qs (permission_name required) ≡ true)
                      (ap (λ y. y.1) (some-inj (rw (at, share, loaded, try_member_access) at h)))
                      (share_of-permitted required _ access share)
              ]
        ]
  ]

  member-permitted :
      (required : Permission) (user id : String)
      → Sat (HasPermission required) (member_verdict server required user id)
  unfolding member_verdict
  member-permitted required user id =
      elim (Option-cases (try_member_access server id user required)) [
        | inl nothing ↦ rw (nothing, member_verdict) tt
        | inr (hit, share) ↦
            rw (share, member_verdict) (try_member-permitted id user required hit.0 hit.1 share)
      ]

  -- The token access of part 5.
  abbrev by_token : ℕ → Permission → Text → String → Option (Workspace × List String)
  by_token now required token id =
      if starts_with (codes "canvas-") token
      then try_token_access server now id token required
      else none

  shared-permitted :
      (now : ℕ) (required : Permission) (token : Text) (user id : String)
      → Sat (HasPermission required) (shared_verdict server now required token user id)
  unfolding shared_verdict
  shared-permitted now required token user id =
      elim (Bool-cases (starts_with (codes "canvas-") token)) [
        | inl canvas ↦ elim (Option-cases (try_token_access server now id token required)) [
          | inl nothing ↦ rw (canvas, nothing, shared_verdict) (member-permitted required user id)
          | inr (hit, found) ↦
              rw (canvas, found, shared_verdict)
                (try_token-permitted now id token required hit.0 hit.1 found)
        ]
        | inr jwt ↦ rw (jwt, shared_verdict) (member-permitted required user id)
      ]

  pub user-permitted :
      (now : ℕ) (required : Permission) (allow_index : Bool) (token : Text) (id user : String)
      → Sat (HasPermission required) (user_verdict server now required allow_index token id user)
  unfolding user_verdict
  user-permitted now required allow_index token id user =
      elim (Option-cases (try_owner_access server user id)) [
        | inr (w, mine) ↦ rw (mine, user_verdict) (has-all required)
        | inl foreign ↦
            rw (foreign, user_verdict) (fallback-permitted (fallback server allow_index user id))
      ]
    where
      fallback-permitted :
          (c : Call (Option Entry))
          → Sat (HasPermission required) (elim c [
            | thrown ↦ server_error
            | returned (some entry) ↦ grant_target (index entry) all_permissions true index_owner
            | returned none ↦ shared_verdict server now required token user id
          ])
      fallback-permitted thrown = tt
      fallback-permitted (returned (some entry)) = has-all required
      fallback-permitted (returned none) = shared-permitted now required token user id
