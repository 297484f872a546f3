-- ===== src/Gate/Workspace/Owner.antt =====
-- Whom src/transports/middleware/workspace-acl.js takes for the owner.
use canvas_server.Prelude.{
  ℕ, ◌≡◌, refl, inl, inr, Bool, true, false, ◌||◌, Option, none, some, List, [], String, ◌==◌, Text,
  codes, starts_with, or_else, Bool-cases, Option-cases, none-ne-some,
}
use canvas_server.Access.Permissions.{Permission}
use canvas_server.Gate.Request.{
  Call, thrown, returned, Workspace, Entry, Server, TokenType, agent, workspace, other, Binding,
  Request, Target, instantiated, index, Via, agent_token, share_token, index_owner, acl_token,
  as_member, Granted, granted, server_error, permission_name, is_named, permits, all_permissions,
  non_empty, caught,
}
use canvas_server.Gate.Lookup.{id_of, try_owner_access, try_token_access, try_member_access}
use canvas_server.Gate.Workspace.{
  grant_target, bound_verdict, agent_load, agent_checked, agent_verdict, share_verdict,
  member_verdict, shared_verdict, fallback, user_verdict, typed_verdict, token_verdict,
  validate_workspace_access,
}
use canvas_server.Gate.Workspace.Sound.{Sat, Sat-granted, IsOwn, own-IsOwn}
use canvas_server.Gate.Workspace.Bound.{IsUser, bearer-Sat}

module _ (server : Server) (allow_index : Bool) where
  -- The target is the user's own: a workspace that is his or nobody's, or, where the route admits
  -- it, his index entry.
  abbrev pub Owns : String → String → Target → Type 0
  Owns name id (instantiated w) = IsOwn server name w
  Owns name id (index e) = (allow_index ≡ true) × (server.index_entry id name ≡ returned (some e))

  -- An access as owner is that of a user who owns the target.
  abbrev Rightful : Request → String → Granted → Type 0
  Rightful r id g =
      g.is_owner ≡ true
      → (name : String) × IsUser server r.authorization r.user_id name × Owns name id g.target

  guest :
      (r : Request) (id : String) (w : Workspace) (permissions : List String) (via : Via)
      → Sat (Rightful r id) (grant_target (instantiated w) permissions false via)
  guest r id w permissions via h = cc

  bound-Rightful :
      (r : Request) (id : String) (via : Via) (b : Binding) (c : Call (Option Workspace))
      → Sat (Rightful r id) (bound_verdict via b c)
  unfolding bound_verdict
  bound-Rightful r id via b thrown = tt
  bound-Rightful r id via b (returned none) = tt
  bound-Rightful r id via b (returned (some w)) = guest r id w (or_else b.permissions []) via

  agent_load-Rightful :
      (r : Request) (id : String) (b : Binding) (user : Option String) (c : Call String)
      → Sat (Rightful r id) (agent_load server b user c)
  unfolding agent_load
  agent_load-Rightful r id b user thrown = tt
  agent_load-Rightful r id b none (returned t) = tt
  agent_load-Rightful r id b (some user) (returned t) =
      bound-Rightful r id agent_token b (server.get_workspace t (some user))

  agent_checked-Rightful :
      (r : Request) (id : String) (required : Permission) (b : Binding) (user : Option String)
      (c : Call Bool)
      → Sat (Rightful r id) (agent_checked server required b user id c)
  unfolding agent_checked
  agent_checked-Rightful r id required b user thrown = tt
  agent_checked-Rightful r id required b user (returned false) = tt
  agent_checked-Rightful r id required b user (returned true) =
      elim (Bool-cases (permits b.permissions (permission_name required))) [
        | inl allowed ↦ rw allowed (agent_load-Rightful r id b user _)
        | inr refused ↦ rw refused tt
      ]

  share-Rightful :
      (r : Request) (id : String) (required : Permission) (b : Binding) (user : Option String)
      → Sat (Rightful r id) (share_verdict server required b user id)
  unfolding share_verdict
  share-Rightful r id required b user =
      elim (Bool-cases (id == b.workspace_id || is_named id b.workspace_name)) [
        | inl here ↦ elim (Bool-cases (permits b.permissions (permission_name required))) [
          | inl allowed ↦ rw (here, allowed) (bound-Rightful r id share_token b _)
          | inr refused ↦ rw (here, refused) tt
        ]
        | inr elsewhere ↦ rw elsewhere tt
      ]

  member-Rightful :
      (r : Request) (id : String) (required : Permission) (user : String)
      → Sat (Rightful r id) (member_verdict server required user id)
  unfolding member_verdict
  member-Rightful r id required user =
      elim (Option-cases (try_member_access server id user required)) [
        | inl nothing ↦ rw (nothing, member_verdict) tt
        | inr (hit, share) ↦ rw (share, member_verdict) (guest r id hit.0 hit.1 as_member)
      ]

  shared-Rightful :
      (r : Request) (id : String) (now : ℕ) (required : Permission) (token : Text) (user : String)
      → Sat (Rightful r id) (shared_verdict server now required token user id)
  unfolding shared_verdict
  shared-Rightful r id now required token user =
      elim (Bool-cases (starts_with (codes "canvas-") token)) [
        | inl canvas ↦ elim (Option-cases (try_token_access server now id token required)) [
          | inl nothing ↦ rw (canvas, nothing, shared_verdict) (member-Rightful r id required user)
          | inr (hit, known) ↦ rw (canvas, known, shared_verdict) (guest r id hit.0 hit.1 acl_token)
        ]
        | inr jwt ↦ rw (jwt, shared_verdict) (member-Rightful r id required user)
      ]

  try_owner-IsOwn :
      (user id : String) (w : Workspace)
      → try_owner_access server user id ≡ some w
      → IsOwn server user w
  unfolding try_owner_access
  try_owner-IsOwn user id w h = elim (Option-cases (id_of server user id)) [
    | inl nowhere ↦ absurd (none-ne-some (rw (nowhere, try_owner_access) at h))
    | inr (key, at) ↦
        own-IsOwn server user (caught (server.get_workspace key (some user))) w
          (rw (at, try_owner_access) at h)
  ]

  user-Rightful :
      (r : Request) (id : String) (now : ℕ) (required : Permission) (token : Text) (user : String)
      → IsUser server r.authorization r.user_id user
      → Sat (Rightful r id) (user_verdict server now required allow_index token id user)
  unfolding user_verdict fallback
  user-Rightful r id now required token user known =
      elim (Option-cases (try_owner_access server user id)) [
        | inr (w, mine) ↦
            rw (mine, user_verdict) (λ h. (user, known, try_owner-IsOwn user id w mine))
        | inl foreign ↦
            rw (foreign, user_verdict)
              (fallback-Rightful (fallback server allow_index user id) refl)
      ]
    where
      index-Owns :
          (a : Bool) (e : Entry)
          → fallback server a user id ≡ returned (some e)
          → (a ≡ true) × (server.index_entry id user ≡ returned (some e))
      index-Owns false e h = cc
      index-Owns true e h = (refl, h)

      fallback-Rightful :
          (c : Call (Option Entry))
          → fallback server allow_index user id ≡ c
          → Sat (Rightful r id) (elim c [
            | thrown ↦ server_error
            | returned (some entry) ↦ grant_target (index entry) all_permissions true index_owner
            | returned none ↦ shared_verdict server now required token user id
          ])
      fallback-Rightful thrown e = tt
      fallback-Rightful (returned (some entry)) e =
          λ h. (user, known, index-Owns allow_index entry e)
      fallback-Rightful (returned none) e = shared-Rightful r id now required token user

  typed-Rightful :
      (now : ℕ) (required : Permission) (r : Request) (id : String) (b : Binding) (t : TokenType)
      → Sat (Rightful r id) (typed_verdict server now required allow_index r id b t)
  unfolding typed_verdict agent_verdict
  typed-Rightful now required r id b agent = agent_checked-Rightful r id required b r.user_id _
  typed-Rightful now required r id b workspace = share-Rightful r id required b r.user_id
  typed-Rightful now required r id b other =
      bearer-Sat server (Rightful r id) now required allow_index r.authorization r.user_id id
        (λ token name known. user-Rightful r id now required token name known)

  token-Rightful :
      (now : ℕ) (required : Permission) (r : Request) (id : String) (t : Option Binding)
      → Sat (Rightful r id) (token_verdict server now required allow_index r id t)
  unfolding token_verdict
  token-Rightful now required r id none =
      bearer-Sat server (Rightful r id) now required allow_index r.authorization r.user_id id
        (λ token name known. user-Rightful r id now required token name known)
  token-Rightful now required r id (some b) = typed-Rightful now required r id b b.type

  -- Only the owner gets in as the owner: a grant marked as the owner's goes to the user whom
  -- authentication or the API token names, and either the loaded workspace is his or has no owner on
  -- record, or the route admits index entries and the index lists the workspace as his.
  pub validate_workspace_access-Owns :
      (now : ℕ) (required : Permission) (r : Request) (id : String) (g : Granted)
      → non_empty r.id ≡ some id
      → validate_workspace_access server now required allow_index r ≡ granted g
      → g.is_owner ≡ true
      → (name : String) × IsUser server r.authorization r.user_id name × Owns name id g.target
  unfolding validate_workspace_access
  validate_workspace_access-Owns now required r id g given h =
      Sat-granted (Rightful r id) _ g (rw (given, validate_workspace_access) at h)
        (token-Rightful now required r id r.resource_token)
