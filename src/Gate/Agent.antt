-- ===== src/Gate/Agent.antt =====
-- `enforceAgentBinding` and `rejectAgentTokens` of src/transports/middleware/agent-acl.js. The handler
-- rewrites paths of the request: the verdict holds the request that is passed on. A path is a text
-- or missing.
pub mod Bound
pub mod Scoped
use canvas_server.Prelude.{
  Bool, true, false, ◌||◌, ◌&&◌, not, Option, none, some, List, [], ◌∷◌, any, String, ◌==◌, or_else,
  is_some, Text, codes, text_eq, if◌then◌else◌,
}
use canvas_server.Gate.Uuid.{is_uuid}
use canvas_server.Gate.Request.{
  Call, thrown, returned, Server, TokenType, agent, workspace, other, non_empty, caught, is_named,
  permits,
}
use canvas_server.Gate.Clamp.{or_root, clamp_path_to_base}

pub record AgentBinding : Type 0 where
  pub type : TokenType
  pub workspace_id : String
  pub base_path : Option Text
  pub permissions : Option (List String)

-- The keys of an object that the handler does not read, with their values as JSON. The bodies of the
-- routes of trees have such paths, under `to` and `path`.
abbrev pub Others : Type 0
Others = List (Text × Text)

-- `request.query`; the outer option of `context` says whether there is such a key.
pub record Query : Type 0 where
  pub others : Others
  pub scope : Option Text
  pub context : Option (Option Text)

-- `request.body`: the contexts of an object are one or an array of them, beside its other keys.
pub data Body : Type 0 where
  no_body array scalar : Body
  one_context : Option Text → Others → Body
  many_contexts : List (Option Text) → Others → Body

pub record AgentCall : Type 0 where
  pub method : String
  pub id : Option String
  pub user_id : Option String
  pub query : Option Query
  pub body : Body
  pub wildcard : Option Text

pub data Outcome : Type 0 where
  passed : AgentCall → Outcome
  refused : Outcome

-- `requiredPermissionForMethod`
abbrev pub reads : String → Bool
reads method = method == "GET" || method == "HEAD" || method == "OPTIONS"

abbrev pub required_permission : String → String
required_permission method = if reads method then "read" else "write"

-- `query.scope`, which may not be the whole workspace
abbrev pub path_scope : Option Text → Option Text
path_scope none = none
path_scope (some s) = if text_eq s (codes "workspace") then some (codes "path") else some s

unfoldable pub clamp_query : Text → Bool → Query → Option Query
clamp_query base reading q =
    if is_some q.context || reading
    then elim (clamp_path_to_base (some base) (or_else q.context none)) [
      | none ↦ none
      | some p ↦ some (record q { scope = path_scope q.scope; context = some (some p) })
    ]
    else some (record q { scope = path_scope q.scope })

unfoldable pub clamp_all : Text → List (Option Text) → Option (List (Option Text))
clamp_all base [] = some []
clamp_all base (x ∷ xs) = elim (clamp_path_to_base (some base) x) [
  | none ↦ none
  | some p ↦ elim (clamp_all base xs) [ none ↦ none | some ps ↦ some (some p ∷ ps) ]
]

unfoldable pub clamp_body : Text → Body → Option Body
unfolding clamp_all
clamp_body base no_body = some no_body
clamp_body base array = none
clamp_body base scalar = some scalar
clamp_body base (one_context x others) = elim (clamp_path_to_base (some base) x) [
  | none ↦ none
  | some p ↦ some (one_context (some p) others)
]
clamp_body base (many_contexts xs others) = elim (clamp_all base xs) [
  | none ↦ none
  | some ps ↦ some (many_contexts ps others)
]

unfoldable pub clamp_wildcard : Text → Option Text → Option (Option Text)
clamp_wildcard base none = some none
clamp_wildcard base (some w) = elim (clamp_path_to_base (some base) (some w)) [
  | none ↦ none
  | some p ↦ some (some p)
]

unfoldable pub clamp_optional_query : Text → Bool → Option Query → Option (Option Query)
unfolding clamp_query
clamp_optional_query base reading none = some none
clamp_optional_query base reading (some q) = elim (clamp_query base reading q) [
  | none ↦ none
  | some q' ↦ some (some q')
]

-- Part 3 below a base that is not the root.
unfoldable pub clamp_request : Text → AgentCall → Outcome
unfolding clamp_optional_query clamp_body clamp_wildcard
clamp_request base r = elim (clamp_optional_query base (reads r.method) r.query) [
  | none ↦ refused
  | some query ↦ elim (clamp_body base r.body) [
    | none ↦ refused
    | some body ↦ elim (clamp_wildcard base r.wildcard) [
      | none ↦ refused
      | some wildcard ↦ passed (record r { query = query; body = body; wildcard = wildcard })
    ]
  ]
]

module _ (server : Server) where
  -- `resolveAddressedWorkspaceId`
  unfoldable pub addressed : Option String → Option String → Option String
  addressed user id = elim (non_empty id) [
    | none ↦ none
    | some name ↦
        if is_uuid name
        then some name
        else non_empty (caught (server.resolve_workspace_id user name))
  ]

  -- Part 1: the workspace is not the bound one.
  unfoldable pub is_elsewhere : AgentBinding → AgentCall → Bool
  unfolding addressed
  is_elsewhere b r =
      not (b.workspace_id == "*")
      && is_some (non_empty r.id)
      && not (is_named b.workspace_id (addressed r.user_id r.id))

  unfoldable pub enforce_bound : AgentBinding → AgentCall → Outcome
  unfolding is_elsewhere clamp_request
  enforce_bound b r =
      if is_elsewhere b r
      then refused
      else if not (permits b.permissions (required_permission r.method))
      then refused
      else if text_eq (or_root (or_else b.base_path [])) (codes "/")
      then passed r
      else clamp_request (or_root (or_else b.base_path [])) r

  unfoldable pub enforce_agent_binding : Option AgentBinding → AgentCall → Outcome
  unfolding enforce_bound
  enforce_agent_binding none r = passed r
  enforce_agent_binding (some b) r = elim b.type [
    | agent ↦ enforce_bound b r
    | workspace ↦ passed r
    | other ↦ passed r
  ]

-- `rejectAgentTokens`
unfoldable pub reject_agent_tokens : Option AgentBinding → AgentCall → Outcome
reject_agent_tokens none r = passed r
reject_agent_tokens (some b) r = elim b.type [
  | agent ↦ refused
  | workspace ↦ passed r
  | other ↦ passed r
]
