-- ===== src/Gate/Tests.antt =====
-- The middleware at concrete requests.
use canvas_server.Prelude.{◌≡◌, refl, true, false, none, some, [], ◌∷◌, String, codes}
use canvas_server.Access.Permissions.{read, write}
use canvas_server.Gate.Uuid.{is_uuid, groups, after_hex, after_dash}
use canvas_server.Gate.Request.{
  returned, Server, agent, workspace, Binding, Request, instantiated, share_token, as_owner,
  Granted, granted, permission_name, has_name, all_permissions,
}
use canvas_server.Gate.Workspace.{
  validate_workspace_access, token_verdict, typed_verdict, share_verdict, bound_verdict,
}
use canvas_server.Gate.Workspace.Bound.{
  IsUser, IsBound, validate_workspace_access-permitted, validate_workspace_access-IsBound,
}
use canvas_server.Gate.Workspace.Owner.{Owns, validate_workspace_access-Owns}
use canvas_server.Gate.Clamp.{clamp_path_to_base}
use canvas_server.Gate.Clamp.Inside.{IsClamped, clamp_path_to_base-IsClamped}
use canvas_server.Gate.Agent.{AgentBinding, one_context, AgentCall, enforce_bound}
use canvas_server.Gate.Agent.Bound.{IsListed, IsForBound}
use canvas_server.Gate.Agent.Scoped.{IsScopedCall, enforce_bound-IsScopedCall}

abbrev server : Server
server = record {
  get_workspace = λ id user. returned (some (record { id = id; owner = some "u1" }));
  resolve_workspace_id = λ user name. returned none;
  index_entry = λ id user. returned none;
  list_workspaces = returned [];
  resolve_access = λ id user. returned none;
  verify_api_token = λ token. returned none;
  sha256 = λ token. "digest";
}

abbrev share : Binding
share = record {
  type = workspace;
  workspace_id = "w1";
  workspace_name = some "notes";
  permissions = some ("read" ∷ []);
}

abbrev share_request : Request
share_request = record {
  id = some "notes";
  resource_token = some share;
  authorization = none;
  user_id = some "u1";
}

abbrev shared_w1 : Granted
shared_w1 = record {
  target = instantiated (record { id = "w1"; owner = some "u1" });
  permissions = "read" ∷ [];
  is_owner = false;
  via = share_token;
}

share_run : validate_workspace_access server 0 read false share_request ≡ granted shared_w1
unfolding validate_workspace_access token_verdict typed_verdict share_verdict bound_verdict
share_run = refl

validate_workspace_access-permitted_example : has_name ("read" ∷ []) (permission_name read) ≡ true
validate_workspace_access-permitted_example =
    validate_workspace_access-permitted server 0 read false share_request shared_w1 share_run

validate_workspace_access-IsBound_example : IsBound server share (some "u1") "notes" shared_w1
validate_workspace_access-IsBound_example =
    validate_workspace_access-IsBound server 0 read false share_request share "notes" shared_w1 refl
      refl refl share_run

abbrev w2 : String
w2 = "7c84589b-9268-45e8-9b7c-85c29adc9bca"

abbrev owner_request : Request
owner_request = record {
  id = some w2;
  resource_token = none;
  authorization = some (codes "Bearer jwt");
  user_id = some "u1";
}

abbrev owned_w2 : Granted
owned_w2 = record {
  target = instantiated (record { id = w2; owner = some "u1" });
  permissions = all_permissions;
  is_owner = true;
  via = as_owner;
}

owner_run : validate_workspace_access server 0 write false owner_request ≡ granted owned_w2
unfolding validate_workspace_access is_uuid groups after_dash after_hex
owner_run = refl

validate_workspace_access-Owns_example :
    (name : String) × IsUser server (some (codes "Bearer jwt")) (some "u1") name
    × Owns server false name w2 owned_w2.target
validate_workspace_access-Owns_example =
    validate_workspace_access-Owns server false 0 write owner_request w2 owned_w2 refl owner_run
      refl

clamp_path_to_base-IsClamped_example : IsClamped (codes "/work") (codes "/work/b")
unfolding clamp_path_to_base
clamp_path_to_base-IsClamped_example =
    clamp_path_to_base-IsClamped (some (codes "/work")) (some (codes "work/./a/../b/"))
      (codes "/work/b") refl

abbrev bound : AgentBinding
bound = record {
  type = agent;
  workspace_id = "*";
  base_path = some (codes "/work");
  permissions = some ("read" ∷ "write" ∷ []);
}

abbrev insertion : AgentCall
insertion = record {
  method = "POST";
  id = some "notes";
  user_id = some "u1";
  query = none;
  body = one_context (some (codes "/work/x")) ((codes "to", codes "/home") ∷ []);
  wildcard = some (codes "/");
}

abbrev clamped_insertion : AgentCall
clamped_insertion = record insertion { wildcard = some (codes "/work") }

enforce_bound-IsScopedCall_example :
    IsScopedCall (codes "/work") insertion clamped_insertion
    × IsListed bound insertion
    × IsForBound server bound insertion
unfolding enforce_bound clamp_path_to_base
enforce_bound-IsScopedCall_example =
    enforce_bound-IsScopedCall server bound insertion clamped_insertion refl refl
