-- ===== src/Workspaces/Names.antt =====
-- `#sanitizeWorkspaceName`, the `resolve…` methods and `getWorkspaceIndexEntry` of src/core/workspace/index.js.
use canvas_server.Prelude.{
  ℕ, Bool, not, ◌||◌, ◌&&◌, Option, none, some, List, [], ◌∷◌, Text, text_eq, is_some, keep, leb,
  nat_eq, is_digit, if◌then◌else◌, Casing, lookup, text_key,
}
use canvas_server.Context.Url.{cut_at}
use canvas_server.Workspaces.References.{
  default_host, parse_workspace_reference, parse_simple_workspace_identifier,
}
use canvas_server.Workspaces.Indexes.Defs.{
  Entry, Manager, truthy, host_of, key_of, all_entries, find_in_index,
}
use canvas_server.Workspaces.Guarded.{World, shared_access_sync}

-- [a-z0-9-_]
abbrev pub is_slug : ℕ → Bool
is_slug c = (leb b'a' c && leb c b'z') || is_digit c || nat_eq c b'-' || nat_eq c b'_'

-- `#sanitizeWorkspaceName`
unfoldable pub sanitize_workspace_name : Casing → Text → Text
sanitize_workspace_name u name = keep is_slug (u.lower name)

-- The host that `<name>@<host>` names, or the one that is given, and the name without it.
host_addressed : Text → Text → Option (Text × Text) → Text × Text
host_addressed name host none = (name, host)
host_addressed name host (some ([], at)) = (name, host)
host_addressed name host (some (c ∷ bare, at)) = (c ∷ bare, at)

unfoldable pub addressed : Text → Text → Text × Text
unfolding host_addressed
addressed name host = host_addressed name host (cut_at name)

-- `resolveOwnWorkspaceId`
unfoldable pub resolve_own_workspace_id : Casing → Text → Text → Text → Manager → Option Text
resolve_own_workspace_id u user_id name host m =
    let a = addressed name host in
    truthy (lookup (key_of user_id a.1 (sanitize_workspace_name u a.0)) m.names)

-- The loop of `#resolveSharedWorkspaceId`.
unfoldable pub first_shared :
    World → Text → Text → Text → Manager → List (Text × Entry) → Option Text
first_shared w user_id slug host m [] = none
first_shared w user_id slug host m ((owner, e) ∷ rest) =
    let later = first_shared w user_id slug host m rest in
    if text_eq e.owner user_id || not (text_eq e.name slug) || not (text_eq (host_of e.host) host)
    then later
    else if is_some (shared_access_sync w e user_id m)
    then some e.id
    else later

-- `#resolveSharedWorkspaceId`
unfoldable pub resolve_shared_workspace_id : World → Text → Text → Text → Manager → Option Text
resolve_shared_workspace_id w user_id slug host m =
    if text_eq user_id [] || text_eq slug []
    then none
    else first_shared w user_id slug host m (all_entries w.order m)

-- `resolveWorkspaceId`: an own name wins
unfoldable pub resolve_workspace_id : World → Text → Text → Text → Manager → Option Text
resolve_workspace_id w user_id name host m =
    elim (resolve_own_workspace_id w.casing user_id name host m) [
      | some id ↦ some id
      | none ↦
          let a = addressed name host in
          resolve_shared_workspace_id w user_id (sanitize_workspace_name w.casing a.0) a.1 m
    ]

-- `resolveWorkspaceIdFromReference`
unfoldable pub resolve_workspace_id_from_reference : Text → Manager → Option Text
resolve_workspace_id_from_reference reference m = elim (parse_workspace_reference reference) [
  | none ↦ none
  | some parsed ↦ lookup reference m.references
]

-- `resolveWorkspaceIdFromSimpleIdentifier`, with `resolveId` of the users service
unfoldable pub resolve_workspace_id_from_simple_identifier :
    World → (Text → Option Text) → Text → Manager → Option Text
resolve_workspace_id_from_simple_identifier w resolve_id identifier m =
    elim (parse_simple_workspace_identifier identifier) [
      | none ↦ none
      | some parsed ↦ elim (truthy (resolve_id parsed.user_identifier)) [
        | none ↦ none
        | some user_id ↦ resolve_workspace_id w user_id parsed.workspace_identifier default_host m
      ]
    ]

abbrev pub found_by_name : World → Option Text → Manager → Option Entry × Manager
found_by_name w none m = (none, m)
found_by_name w (some id) m = find_in_index w.order id m

-- The entry under an id or, for a user, under a name.
abbrev pub entry_or_named : World → Text → Text → Option Entry × Manager → Option Entry × Manager
entry_or_named w id user_id (some e, m) = (some e, m)
entry_or_named w id user_id (none, m) =
    if text_eq user_id []
    then (none, m)
    else found_by_name w (resolve_workspace_id w user_id id default_host m) m

-- An entry of another user is not shown.
abbrev pub owned_only : Text → Option Entry → Option Entry
owned_only user_id none = none
owned_only user_id (some e) =
    if not (text_eq user_id []) && not (text_eq e.owner user_id) then none else some e

-- `getWorkspaceIndexEntry`; no user is the empty text
unfoldable pub get_workspace_index_entry : World → Text → Text → Manager → Option Entry × Manager
get_workspace_index_entry w id user_id m =
    let r = entry_or_named w id user_id (find_in_index w.order id m) in
    (owned_only user_id r.0, r.1)
