-- ===== src/Gate/Scope.antt =====
-- `enforceWorkspaceTokenScope` of src/transports/middleware/workspace-acl.js: the clamp on share tokens
-- in front of every route.
use canvas_server.Prelude.{
  Bool, true, false, ◌||◌, ◌&&◌, Option, none, some, [], ◌∷◌, nat_eq, Text, codes, text_eq,
  starts_with, String, ◌==◌, if◌then◌else◌,
}
use canvas_server.Gate.Request.{agent, workspace, other, Binding, is_named}

-- The URL without its query.
abbrev pub until_query : Text → Text
until_query [] = []
until_query (c ∷ s) = if nat_eq c b'?' then [] else c ∷ until_query s

-- The id of the route is the workspace's id or name.
abbrev pub is_addressed : Binding → Option String → Bool
is_addressed b none = false
is_addressed b (some id) = id == b.workspace_id || is_named id b.workspace_name

-- A share token passes on the routes of its workspace, and where it is described to its holder.
unfoldable pub bound_scope : Text → Binding → Option String → Bool
bound_scope path b id =
    (starts_with (codes "/rest/v2/workspaces/") path && is_addressed b id)
    || text_eq path (codes "/rest/v2/workspaces/token-info")

-- The handler: whether the request passes.
unfoldable pub enforce_workspace_token_scope : Text → Option String → Option Binding → Bool
enforce_workspace_token_scope url id none = true
enforce_workspace_token_scope url id (some b) = elim b.type [
  | workspace ↦ bound_scope (until_query url) b id
  | agent ↦ true
  | other ↦ true
]
