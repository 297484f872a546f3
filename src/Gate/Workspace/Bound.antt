-- ===== src/Gate/Workspace/Bound.antt =====
-- What a grant of src/transports/middleware/workspace-acl.js is bound to.
use mathlib.Core.Path.{subst}
use canvas_server.Prelude.{
  ℕ, ◌≡◌, refl, sym, ap, ◌∙◌, inl, inr, Bool, true, false, ◌||◌, Option, none, some, String, ◌==◌,
  Text, Bool-cases, Option-cases,
}
use canvas_server.Access.Permissions.{Permission}
use canvas_server.Gate.Request.{
  Call, thrown, returned, Workspace, Server, TokenType, agent, workspace, other, Binding, Request,
  instantiated, Via, share_token, Granted, granted, server_error, permission_name, has_name,
  is_named, permits, non_empty,
}
use canvas_server.Gate.Workspace.{
  bearer, bound_verdict, agent_verdict, share_verdict, user_verdict, user_of, signed_in_verdict,
  bearer_verdict, typed_verdict, token_verdict, validate_workspace_access,
}
use canvas_server.Gate.Workspace.Sound.{
  Sat, Sat-granted, denied-ne-granted, some_string, HasPermission, agent_checked-permitted,
  share-permitted, user-permitted,
}

module _ (server : Server) where
  signed_in-Sat :
      (P : Granted → Type 0) (now : ℕ) (required : Permission) (allow_index : Bool) (token : Text)
      (id : String) (c : Call (Option String))
      → ((user : String)
          → c ≡ returned (some user)
          → Sat P (user_verdict server now required allow_index token id user))
      → Sat P (signed_in_verdict server now required allow_index token id c)
  unfolding signed_in_verdict
  signed_in-Sat P now required allow_index token id thrown h = tt
  signed_in-Sat P now required allow_index token id (returned none) h = tt
  signed_in-Sat P now required allow_index token id (returned (some user)) h = h user refl

  -- The user that the handler works for, by the header and by what authentication found.
  abbrev pub IsUser : Option Text → Option String → String → Type 0
  IsUser header user name =
      (token : Text) × (bearer header ≡ some token)
      × (user_of server token user ≡ returned (some name))

  pub bearer-Sat :
      (P : Granted → Type 0) (now : ℕ) (required : Permission) (allow_index : Bool)
      (header : Option Text) (user : Option String) (id : String)
      → ((token : Text) (name : String)
          → IsUser header user name
          → Sat P (user_verdict server now required allow_index token id name))
      → Sat P (bearer_verdict server now required allow_index header user id)
  unfolding bearer_verdict
  bearer-Sat P now required allow_index header user id h = elim (Option-cases (bearer header)) [
    | inl nothing ↦ rw (nothing, bearer_verdict) tt
    | inr (token, sent) ↦
        rw (sent, bearer_verdict)
          (signed_in-Sat P now required allow_index token id (user_of server token user)
            (λ name known. h token name (token, sent, known)))
  ]

  typed-permitted :
      (now : ℕ) (required : Permission) (allow_index : Bool) (r : Request) (id : String)
      (b : Binding) (t : TokenType)
      → Sat (HasPermission server required) (typed_verdict server now required allow_index r id b t)
  unfolding typed_verdict agent_verdict
  typed-permitted now required allow_index r id b agent =
      agent_checked-permitted server required b r.user_id id _
  typed-permitted now required allow_index r id b workspace =
      share-permitted server required b r.user_id id
  typed-permitted now required allow_index r id b other =
      bearer-Sat _ now required allow_index r.authorization r.user_id id
        (λ token name known. user-permitted server now required allow_index token id name)

  token-permitted :
      (now : ℕ) (required : Permission) (allow_index : Bool) (r : Request) (id : String)
      (t : Option Binding)
      → Sat (HasPermission server required) (token_verdict server now required allow_index r id t)
  unfolding token_verdict
  token-permitted now required allow_index r id none =
      bearer-Sat _ now required allow_index r.authorization r.user_id id
        (λ token name known. user-permitted server now required allow_index token id name)
  token-permitted now required allow_index r id (some b) =
      typed-permitted now required allow_index r id b b.type

  -- Whatever the way a request gets in, owner, token or share, the permissions that the handler
  -- attaches to it contain the one that the route requires.
  pub validate_workspace_access-permitted :
      (now : ℕ) (required : Permission) (allow_index : Bool) (r : Request) (g : Granted)
      → validate_workspace_access server now required allow_index r ≡ granted g
      → has_name g.permissions (permission_name required) ≡ true
  unfolding validate_workspace_access
  validate_workspace_access-permitted now required allow_index r g h =
      elim (Option-cases (non_empty r.id)) [
        | inl nothing ↦
            absurd
              (denied-ne-granted server_error g tt (rw (nothing, validate_workspace_access) at h))
        | inr (id, given) ↦
            Sat-granted (HasPermission server required) _ g
              (rw (given, validate_workspace_access) at h)
              (token-permitted now required allow_index r id r.resource_token)
      ]

  -- The workspace of a grant is loaded, and is the one that its binding names.
  abbrev pub IsBound : Binding → Option String → String → Granted → Type 0
  IsBound b user id g =
      (g.is_owner ≡ false)
      × ((w : Workspace) × (g.target ≡ instantiated w)
          × (server.get_workspace b.workspace_id user ≡ returned (some w)))
      × ((id == b.workspace_id || is_named id b.workspace_name) ≡ true)

  bound_verdict-IsBound :
      (b : Binding) (user : Option String) (id : String) (via : Via) (c : Call (Option Workspace))
      → server.get_workspace b.workspace_id user ≡ c
      → (id == b.workspace_id || is_named id b.workspace_name) ≡ true
      → Sat (IsBound b user id) (bound_verdict via b c)
  unfolding bound_verdict
  bound_verdict-IsBound b user id via thrown h k = tt
  bound_verdict-IsBound b user id via (returned none) h k = tt
  bound_verdict-IsBound b user id via (returned (some w)) h k = (refl, (w, refl, h), k)

  share-IsBound :
      (required : Permission) (b : Binding) (user : Option String) (id : String)
      → Sat (IsBound b user id) (share_verdict server required b user id)
  unfolding share_verdict
  share-IsBound required b user id =
      elim (Bool-cases (id == b.workspace_id || is_named id b.workspace_name)) [
        | inl here ↦ elim (Bool-cases (permits b.permissions (permission_name required))) [
          | inl allowed ↦
              rw (here, allowed) (bound_verdict-IsBound b user id share_token _ refl here)
          | inr refused ↦ rw (here, refused) tt
        ]
        | inr elsewhere ↦ rw elsewhere tt
      ]

  -- A share token that is let in is let into the one workspace that it is bound to, which is the
  -- one addressed by id or by name, and never as the owner, although it authenticates as the owner.
  pub validate_workspace_access-IsBound :
      (now : ℕ) (required : Permission) (allow_index : Bool) (r : Request) (b : Binding)
      (id : String) (g : Granted)
      → r.resource_token ≡ some b
      → b.type ≡ workspace
      → r.id ≡ some id
      → validate_workspace_access server now required allow_index r ≡ granted g
      → IsBound b r.user_id id g
  unfolding validate_workspace_access token_verdict typed_verdict
  validate_workspace_access-IsBound now required allow_index r b id g carried kind addressed h =
      elim (Option-cases (non_empty r.id)) [
        | inl nothing ↦
            absurd
              (denied-ne-granted server_error g tt (rw (nothing, validate_workspace_access) at h))
        | inr (name, given) ↦
            let e : name ≡ id = some_string id name (ap non_empty (sym addressed) ∙ given) in
            let at_token : token_verdict server now required allow_index r id (some b) ≡ granted g =
              subst (λ x. token_verdict server now required allow_index r x (some b) ≡ granted g) e
                (subst (λ t. token_verdict server now required allow_index r name t ≡ granted g)
                  carried (rw (given, validate_workspace_access) at h)) in
            Sat-granted (IsBound b r.user_id id) _ g
              (subst (λ t. typed_verdict server now required allow_index r id b t ≡ granted g) kind
                at_token)
              (share-IsBound required b r.user_id id)
      ]
