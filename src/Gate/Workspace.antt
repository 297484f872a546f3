-- ===== src/Gate/Workspace.antt =====
-- The handler `validateWorkspaceAccess` of src/transports/middleware/workspace-acl.js.
pub mod Sound
pub mod Bound
pub mod Owner
use Prim.Native.String.{◌++◌}
use canvas_server.Prelude.{
  ℕ, Bool, true, false, ◌&&◌, ◌||◌, not, nat_eq, Option, none, some, List, [], ◌∷◌, any, String,
  ◌==◌, or_else, is_some, Text, codes, starts_with, strip_prefix, Dict, lookup, string_key, ltb,
  if◌then◌else◌,
}
use canvas_server.Access.Permissions.{Permission, read, write, admin}
use canvas_server.Access.Resolve.{Token, Acl}
use canvas_server.Access.Tokens.{tokens_of, has_expired}
use canvas_server.Gate.Uuid.{is_uuid}
use canvas_server.Gate.Request.{
  Call, thrown, returned, Workspace, Entry, Resolved, Server, TokenType, agent, workspace, other,
  Binding, Request, Target, instantiated, index, Via, agent_token, share_token, as_owner,
  index_owner, acl_token, as_member, Granted, Verdict, granted, forbidden, not_found, server_error,
  permission_name, has_name, is_named, permits, all_permissions, non_empty, caught,
}
use canvas_server.Gate.Lookup.{try_owner_access, try_token_access, try_member_access}

-- The text up to the first space: `split(' ')[0]`.
abbrev pub until_space : Text → Text
until_space [] = []
until_space (c ∷ s) = if nat_eq c b' ' then [] else c ∷ until_space s

-- `Bearer <token>`; none is the error that is thrown without one
unfoldable pub bearer : Option Text → Option Text
bearer none = none
bearer (some header) = elim (strip_prefix (codes "Bearer ") header) [
  | none ↦ none
  | some rest ↦ some (until_space rest)
]

abbrev pub grant_target : Target → List String → Bool → Via → Verdict
grant_target target permissions is_owner via =
    granted (record { target = target; permissions = permissions; is_owner = is_owner; via = via })

-- A bound token's workspace as it was loaded.
unfoldable pub bound_verdict : Via → Binding → Call (Option Workspace) → Verdict
bound_verdict via b thrown = server_error
bound_verdict via b (returned none) = not_found
bound_verdict via b (returned (some w)) =
    grant_target (instantiated w) (or_else b.permissions []) false via

module _ (server : Server) where
  -- The test that an agent's token is bound to the addressed workspace.
  unfoldable pub agent_matches : Binding → Option String → String → Call Bool
  agent_matches b user id =
      if b.workspace_id == "*" || id == b.workspace_id || is_named id b.workspace_name
      then returned true
      else elim (server.resolve_workspace_id user id) [
        | thrown ↦ thrown
        | returned found ↦ returned (is_named b.workspace_id found)
      ]

  -- The id of the workspace that is loaded for an agent.
  unfoldable pub agent_target : Binding → Option String → String → Call String
  agent_target b user id =
      if b.workspace_id == "*"
      then elim (server.resolve_workspace_id user id) [
        | thrown ↦ thrown
        | returned found ↦ returned (or_else (non_empty found) id)
      ]
      else returned b.workspace_id

  -- `request.user.id` throws without a user.
  unfoldable pub agent_load : Binding → Option String → Call String → Verdict
  unfolding bound_verdict
  agent_load b user thrown = server_error
  agent_load b none (returned target) = server_error
  agent_load b (some user) (returned target) =
      bound_verdict agent_token b (server.get_workspace target (some user))

  unfoldable pub agent_checked : Permission → Binding → Option String → String → Call Bool → Verdict
  unfolding agent_load agent_target
  agent_checked required b user id thrown = server_error
  agent_checked required b user id (returned false) = forbidden
  agent_checked required b user id (returned true) =
      if permits b.permissions (permission_name required)
      then agent_load b user (agent_target b user id)
      else forbidden

  -- Part 1b: agents.
  unfoldable pub agent_verdict : Permission → Binding → Option String → String → Verdict
  unfolding agent_checked agent_matches
  agent_verdict required b user id = agent_checked required b user id (agent_matches b user id)

  -- Part 1c: share tokens.
  unfoldable pub share_verdict : Permission → Binding → Option String → String → Verdict
  unfolding bound_verdict
  share_verdict required b user id =
      if not (id == b.workspace_id || is_named id b.workspace_name)
      then forbidden
      else if not (permits b.permissions (permission_name required))
      then forbidden
      else bound_verdict share_token b (server.get_workspace b.workspace_id user)

  -- Part 7 is reached where there is no member access.
  unfoldable pub member_verdict : Permission → String → String → Verdict
  unfolding try_member_access
  member_verdict required user id = elim (try_member_access server id user required) [
    | none ↦ forbidden
    | some (w, permissions) ↦ grant_target (instantiated w) permissions false as_member
  ]

  -- Parts 5 to 7.
  unfoldable pub shared_verdict : ℕ → Permission → Text → String → String → Verdict
  unfolding try_token_access member_verdict
  shared_verdict now required token user id =
      elim (if starts_with (codes "canvas-") token
        then try_token_access server now id token required
        else none) [
          | none ↦ member_verdict required user id
          | some (w, permissions) ↦ grant_target (instantiated w) permissions false acl_token
        ]

  -- Part 4b, with the fallback to the index.
  unfoldable pub fallback : Bool → String → String → Call (Option Entry)
  fallback false user id = returned none
  fallback true user id = server.index_entry id user

  -- Parts 4 to 7, for a user.
  unfoldable pub user_verdict : ℕ → Permission → Bool → Text → String → String → Verdict
  unfolding try_owner_access fallback shared_verdict
  user_verdict now required allow_index token id user = elim (try_owner_access server user id) [
    | some w ↦ grant_target (instantiated w) all_permissions true as_owner
    | none ↦ elim (fallback allow_index user id) [
      | thrown ↦ server_error
      | returned (some entry) ↦ grant_target (index entry) all_permissions true index_owner
      | returned none ↦ shared_verdict now required token user id
    ]
  ]

  -- Part 3: the user, who is looked up by the token only if it is a canvas token.
  unfoldable pub user_of : Text → Option String → Call (Option String)
  user_of token user = elim (non_empty user) [
    | some id ↦ returned (some id)
    | none ↦ if starts_with (codes "canvas-") token then server.verify_api_token token else thrown
  ]

  -- Parts 3 to 7. Without a user the handler throws.
  unfoldable pub signed_in_verdict :
      ℕ → Permission → Bool → Text → String → Call (Option String) → Verdict
  unfolding user_verdict
  signed_in_verdict now required allow_index token id thrown = server_error
  signed_in_verdict now required allow_index token id (returned none) = server_error
  signed_in_verdict now required allow_index token id (returned (some user)) =
      user_verdict now required allow_index token id user

  -- Parts 2 to 7.
  unfoldable pub bearer_verdict :
      ℕ → Permission → Bool → Option Text → Option String → String → Verdict
  unfolding bearer signed_in_verdict user_of
  bearer_verdict now required allow_index header user id = elim (bearer header) [
    | none ↦ server_error
    | some token ↦ signed_in_verdict now required allow_index token id (user_of token user)
  ]

  -- The parts 1b, 1c and 2 to 7, by the type of the bound token.
  unfoldable pub typed_verdict :
      ℕ → Permission → Bool → Request → String → Binding → TokenType → Verdict
  unfolding agent_verdict share_verdict bearer_verdict
  typed_verdict now required allow_index r id b agent = agent_verdict required b r.user_id id
  typed_verdict now required allow_index r id b workspace = share_verdict required b r.user_id id
  typed_verdict now required allow_index r id b other =
      bearer_verdict now required allow_index r.authorization r.user_id id

  unfoldable pub token_verdict : ℕ → Permission → Bool → Request → String → Option Binding → Verdict
  unfolding bearer_verdict typed_verdict
  token_verdict now required allow_index r id none =
      bearer_verdict now required allow_index r.authorization r.user_id id
  token_verdict now required allow_index r id (some b) =
      typed_verdict now required allow_index r id b b.type

  unfoldable pub validate_workspace_access : ℕ → Permission → Bool → Request → Verdict
  unfolding token_verdict
  validate_workspace_access now required allow_index r = elim (non_empty r.id) [
    | none ↦ server_error
    | some id ↦ token_verdict now required allow_index r id r.resource_token
  ]
