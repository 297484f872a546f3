-- ===== src/Gate/Lookup.antt =====
-- The three ways to a workspace in src/transports/middleware/workspace-acl.js: as its owner, by a
-- token of its `acl`, and as a member.
use Prim.Native.String.{◌++◌}
use canvas_server.Prelude.{
  ℕ, ◌||◌, not, Option, none, some, List, [], ◌∷◌, String, ◌==◌, Text, lookup, string_key,
  if◌then◌else◌,
}
use canvas_server.Access.Permissions.{Permission}
use canvas_server.Access.Resolve.{Token}
use canvas_server.Access.Tokens.{tokens_of, has_expired}
use canvas_server.Gate.Uuid.{is_uuid}
use canvas_server.Gate.Request.{
  thrown, returned, Workspace, Entry, Resolved, Server, permission_name, has_name, permits,
  non_empty, caught,
}

-- The first entry that has the id, in `findWorkspaceByTokenHash`, if it holds the token.
unfoldable pub entry_by_id : String → String → List Entry → Option (Entry × Token)
entry_by_id id hash [] = none
entry_by_id id hash (e ∷ es) =
    if e.id == id
    then elim (lookup hash (tokens_of e.acl)) [ none ↦ none | some token ↦ some (e, token) ]
    else entry_by_id id hash es

-- The first entry that has the name and holds the token.
unfoldable pub entry_by_name : String → String → List Entry → Option (Entry × Token)
entry_by_name name hash [] = none
entry_by_name name hash (e ∷ es) =
    let rest = entry_by_name name hash es in
    if e.name == name
    then elim (lookup hash (tokens_of e.acl)) [ none ↦ rest | some token ↦ some (e, token) ]
    else rest

module _ (server : Server) where
  -- The workspace unless it has another owner.
  unfoldable pub own : String → Option Workspace → Option Workspace
  own user none = none
  own user (some w) = elim (non_empty w.owner) [
    | none ↦ some w
    | some owner ↦ if owner == user then some w else none
  ]

  -- The id behind an identifier: as it is, or resolved from a name.
  unfoldable pub id_of : String → String → Option String
  id_of user identifier =
      if is_uuid identifier
      then some identifier
      else non_empty (caught (server.resolve_workspace_id (some user) identifier))

  unfoldable pub try_owner_access : String → String → Option Workspace
  unfolding own id_of
  try_owner_access user identifier = elim (id_of user identifier) [
    | none ↦ none
    | some id ↦ own user (caught (server.get_workspace id (some user)))
  ]

  unfoldable pub find_workspace_by_token_hash : String → String → Option (Entry × Token)
  unfolding entry_by_id entry_by_name
  find_workspace_by_token_hash identifier hash = elim server.list_workspaces [
    | thrown ↦ none
    | returned entries ↦
        if is_uuid identifier
        then entry_by_id identifier hash entries
        else entry_by_name identifier hash entries
  ]

  -- What a token of an `acl` is worth: its permissions, where it has not expired and holds the one
  -- that is required. Without any permissions `includes` throws.
  unfoldable pub worth : ℕ → Permission → Token → Option (List String)
  worth now required token =
      if has_expired now token.expires_at
      then none
      else if permits token.permissions (permission_name required)
      then token.permissions
      else none

  unfoldable pub try_token_access :
      ℕ → String → Text → Permission → Option (Workspace × List String)
  unfolding find_workspace_by_token_hash worth
  try_token_access now identifier token required =
      elim (find_workspace_by_token_hash identifier ("sha256:" ++ server.sha256 token)) [
        | none ↦ none
        | some (entry, token_data) ↦ elim (worth now required token_data) [
          | none ↦ none
          | some permissions ↦ elim (caught (server.get_workspace entry.id none)) [
            | none ↦ none
            | some w ↦ some (w, permissions)
          ]
        ]
      ]

  -- What a user's share is worth.
  unfoldable pub share_of : Permission → Option Resolved → Option Resolved
  share_of required none = none
  share_of required (some access) =
      if access.is_owner || not (has_name access.permissions (permission_name required))
      then none
      else some access

  unfoldable pub try_member_access : String → String → Permission → Option (Workspace × List String)
  unfolding id_of share_of
  try_member_access identifier user required = elim (id_of user identifier) [
    | none ↦ none
    | some id ↦ elim (share_of required (caught (server.resolve_access id user))) [
      | none ↦ none
      | some access ↦ elim (caught (server.get_workspace id access.owner)) [
        | none ↦ none
        | some w ↦ some (w, access.permissions)
      ]
    ]
  ]
