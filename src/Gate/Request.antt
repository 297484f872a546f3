-- ===== src/Gate/Request.antt =====
-- What src/transports/middleware/workspace-acl.js reads and decides. The workspace manager, the auth service and the
-- SHA-256 digest are the record `Server`, a parameter of the handlers; a request is what the handlers read of it.
-- `request.user?.id` is one optional field: a user who is set has an id.
use canvas_server.Prelude.{
  Bool, false, Option, none, some, List, [], ◌∷◌, any, String, ◌==◌, Text, string_key,
  if◌then◌else◌,
}
use canvas_server.Access.Permissions.{Permission, read, write, admin}
use canvas_server.Access.Resolve.{Acl}

-- What an awaited call does.
pub data Call {ℓ} (A : Type ℓ) : Type ℓ where
  thrown : Call A
  returned : A → Call A

pub record Workspace : Type 0 where
  pub id : String
  pub owner : Option String

-- An entry of the workspace index.
pub record Entry : Type 0 where
  pub id : String
  pub name : String
  pub acl : Option Acl

-- What `resolveWorkspaceAccess` returns for a user.
pub record Resolved : Type 0 where
  pub permissions : List String
  pub is_owner : Bool
  pub owner : Option String

-- What the middleware uses of the workspace manager and the auth service.
pub record Server : Type 0 where
  pub get_workspace : String → Option String → Call (Option Workspace)
  pub resolve_workspace_id : Option String → String → Call (Option String)
  pub index_entry : String → String → Call (Option Entry)
  pub list_workspaces : Call (List Entry)
  pub resolve_access : String → String → Call (Option Resolved)
  pub verify_api_token : Text → Call (Option String)
  pub sha256 : Text → String

pub data TokenType : Type 0 where
  agent workspace other : TokenType

-- `request.resourceToken`, as authentication sets it: the workspace's id is always there.
pub record Binding : Type 0 where
  pub type : TokenType
  pub workspace_id : String
  pub workspace_name : Option String
  pub permissions : Option (List String)

pub record Request : Type 0 where
  pub id : Option String
  pub resource_token : Option Binding
  pub authorization : Option Text
  pub user_id : Option String

pub data Target : Type 0 where
  instantiated : Workspace → Target
  index : Entry → Target

pub data Via : Type 0 where
  agent_token share_token as_owner index_owner acl_token as_member : Via

-- `request.workspaceAccess`
pub record Granted : Type 0 where
  pub target : Target
  pub permissions : List String
  pub is_owner : Bool
  pub via : Via

pub data Verdict : Type 0 where
  granted : Granted → Verdict
  forbidden not_found server_error : Verdict

abbrev pub permission_name : Permission → String
permission_name read = "read"
permission_name write = "write"
permission_name admin = "admin"

-- `list.includes(name)`
abbrev pub has_name : List String → String → Bool
has_name ps name = any (λ p. p == name) ps

-- `x === y` where y may be undefined
abbrev pub is_named : String → Option String → Bool
is_named x none = false
is_named x (some y) = x == y

-- `permissions?.includes(name)`
abbrev pub permits : Option (List String) → String → Bool
permits none name = false
permits (some ps) name = has_name ps name

abbrev pub all_permissions : List String
all_permissions = "read" ∷ "write" ∷ "admin" ∷ []

-- A falsy string is as good as none.
abbrev pub non_empty : Option String → Option String
non_empty none = none
non_empty (some s) = if s == "" then none else some s

-- What `try` makes of a call: an error is caught and counts as null.
abbrev pub caught {ℓ} : {A : Type ℓ} → Call (Option A) → Option A
caught thrown = none
caught (returned x) = x
