-- ===== src/Workspaces/Guarded.antt =====
-- Who reaches a workspace in src/core/workspace/index.js. The record `World` is what the manager asks of the users
-- service, the disk and the constructor of an instance; the cache of principals, which lives five seconds, is left out.
pub mod Checked
use canvas_server.Prelude.{
  Bool, true, false, not, ◌&&◌, ◌||◌, Option, none, some, List, [], ◌∷◌, Text, text_eq, or_else,
  any, if◌then◌else◌, Casing, lookup, insert, remove, text_key,
}
use canvas_server.Access.Permissions.{Permission, read, write, admin}
use canvas_server.Access.Resolve.{Acl, Principal, Via, Access, resolve_acl_access, user, group}
use canvas_server.Gate.Request.{Call, thrown, returned}
use canvas_server.Workspaces.Indexes.Defs.{
  Entry, Credentials, Loaded, Manager, truthy, is_remote, find_in_index,
}

pub record World : Type 0 where
  pub casing : Casing
  -- the order of `#knownUserIds`
  pub order : List Text
  -- a config file's `acl`, if the file exists; reading it may throw
  pub read_config : Text → Option (Call (Option Acl))
  -- `#principalFor`
  pub principal_for : Text → Option Principal
  -- `#principalSync`
  pub principal_sync : Text → Option Principal
  -- `new Workspace`, on the entry's paths
  pub instantiate : Entry → Call Loaded
  -- `new RemoteWorkspace`
  pub remote_instance : Entry → Credentials → Loaded

pub data Role : Type 0 where
  as_owner : Role
  shared : Via → Text → Role

-- What `resolveWorkspaceAccess` returns, without its description for the reader.
pub record Rights : Type 0 where
  pub role : Role
  pub owner : Text
  pub permissions : List Permission

pub data Failure : Type 0 where
  access_denied workspace_not_found workspace_not_ready : Failure

pub data Outcome : Type 0 where
  failed : Failure → Outcome
  got : Loaded → Outcome

abbrev pub owner_permissions : List Permission
owner_permissions = read ∷ write ∷ admin ∷ []

abbrev pub same_permission : Permission → Permission → Bool
same_permission read read = true
same_permission write write = true
same_permission admin admin = true
same_permission _ _ = false

-- `access.permissions.includes(permission)`
abbrev pub carries : List Permission → Permission → Bool
carries ps q = any (λ p. same_permission p q) ps

-- The ACL of a config file, or the index's copy.
stored_acl : Entry → Option (Call (Option Acl)) → Option Acl
stored_acl e none = e.acl
stored_acl e (some thrown) = e.acl
stored_acl e (some (returned acl)) = acl

abbrev from_disk : World → Entry → Option Text → Option Acl
from_disk w e none = e.acl
from_disk w e (some path) = stored_acl e (w.read_config path)

-- `#aclFor`
unfoldable pub acl_for : World → Entry → Manager → Option Acl
unfolding stored_acl
acl_for w e m = elim (lookup e.id m.loaded) [
  | none ↦ from_disk w e (truthy e.config_path)
  | some ws ↦
      if ws.is_remote
      then from_disk w e (truthy e.config_path)
      else elim ws.acl [ thrown ↦ from_disk w e (truthy e.config_path) | returned acl ↦ acl ]
]

abbrev pub owner_rights : Entry → Rights
owner_rights e = record { role = as_owner; owner = e.owner; permissions = owner_permissions }

abbrev pub shared_rights : Entry → Access → Rights
shared_rights e a = record {
  role = shared a.via a.principal;
  owner = e.owner;
  permissions = a.permissions;
}

abbrev pub rights_of_share : Entry → Option Access → Option Rights
rights_of_share e none = none
rights_of_share e (some a) = some (shared_rights e a)

-- `principal ? resolveAclAccess(…) : null`
abbrev pub share_of : World → Option Acl → Option Principal → Option Access
share_of w acl none = none
share_of w acl (some p) = resolve_acl_access w.casing acl (some p)

-- The rest of `resolveWorkspaceAccess`, for the entry that is found.
unfoldable pub entry_rights : World → Text → Manager → Option Entry → Option Rights
entry_rights w user_id m none = none
entry_rights w user_id m (some e) =
    if text_eq user_id []
    then none
    else if text_eq e.owner user_id
    then some (owner_rights e)
    else if is_remote e
    then none
    else rights_of_share e (share_of w (acl_for w e m) (w.principal_for user_id))

-- `resolveWorkspaceAccess`
unfoldable pub resolve_workspace_access : World → Text → Text → Manager → Option Rights × Manager
resolve_workspace_access w id user_id m =
    let found = find_in_index w.order id m in (entry_rights w user_id found.1 found.0, found.1)

-- `#sharedAccessSync`
unfoldable pub shared_access_sync : World → Entry → Text → Manager → Option Access
shared_access_sync w e user_id m =
    if text_eq user_id [] || text_eq e.owner user_id || is_remote e
    then none
    else share_of w (acl_for w e m) (w.principal_sync user_id)

abbrev pub judged : Option Rights → Option Permission → Option Failure
judged none permission = some access_denied
judged (some rights) none = none
judged (some rights) (some p) = if carries rights.permissions p then none else some access_denied

-- `#assertSharedAccess`: none is no error
unfoldable pub assert_shared_access :
    World → Text → Text → Option Permission → Manager → Option Failure × Manager
assert_shared_access w id user_id permission m =
    let access = resolve_workspace_access w id user_id m in (judged access.0 permission, access.1)

-- The guard that both branches of `getWorkspaceOrThrow` share: `owner` is the owner of the
-- instance or of the entry.
unfoldable pub guarded :
    World → Text → Text → Text → Option Permission → Manager → Option Failure × Manager
guarded w owner id user_id permission m =
    if text_eq user_id [] || text_eq owner user_id
    then (none, m)
    else assert_shared_access w id user_id permission m

abbrev keep_instance : Text → Loaded → Manager → Outcome × Manager
keep_instance id ws m = (got ws, record m { loaded = insert id ws m.loaded })

-- A remote entry needs credentials with a token.
unfoldable pub load_remote : World → Text → Entry → Manager → Outcome × Manager
load_remote w id e m = elim (lookup e.id (or_else (lookup e.owner m.remote_indexes) [])) [
  | none ↦ (failed workspace_not_ready, m)
  | some credentials ↦
      if text_eq credentials.token []
      then (failed workspace_not_ready, m)
      else keep_instance id (w.remote_instance e credentials) m
]

-- A local entry needs a config file.
unfoldable pub load_local : World → Text → Entry → Manager → Outcome × Manager
load_local w id e m = elim (truthy e.config_path) [
  | none ↦ (failed workspace_not_ready, m)
  | some path ↦ elim (w.read_config path) [
    | none ↦ (failed workspace_not_ready, m)
    | some file ↦ elim (w.instantiate e) [
      | thrown ↦ (failed workspace_not_ready, m)
      | returned ws ↦ keep_instance id ws m
    ]
  ]
]

abbrev pub cached_after : Loaded → Option Failure × Manager → Outcome × Manager
cached_after ws (some f, m) = (failed f, m)
cached_after ws (none, m) = (got ws, m)

-- The branch of a workspace that is in memory.
unfoldable pub get_cached :
    World → Text → Text → Option Permission → Manager → Loaded → Outcome × Manager
get_cached w id user_id permission m ws =
    cached_after ws (guarded w ws.owner id user_id permission m)

abbrev pub loaded_after : World → Text → Entry → Option Failure × Manager → Outcome × Manager
loaded_after w id e (some f, m) = (failed f, m)
loaded_after w id e (none, m) = if is_remote e then load_remote w id e m else load_local w id e m

-- The branch of an index entry.
unfoldable pub get_indexed :
    World → Text → Text → Option Permission → Manager → Option Entry → Outcome × Manager
get_indexed w id user_id permission m none = (failed workspace_not_found, m)
get_indexed w id user_id permission m (some e) =
    loaded_after w id e (guarded w e.owner id user_id permission m)

-- `getWorkspaceOrThrow`
unfoldable pub get_workspace_or_throw :
    World → Text → Text → Option Permission → Manager → Outcome × Manager
get_workspace_or_throw w id user_id permission m = elim (lookup id m.loaded) [
  | some ws ↦ get_cached w id user_id permission m ws
  | none ↦
      let found = find_in_index w.order id m in get_indexed w id user_id permission found.1 found.0
]

abbrev outcome_or_null : Outcome → Option Loaded
outcome_or_null (failed f) = none
outcome_or_null (got ws) = some ws

-- `getWorkspace`: every failure is a coded one
unfoldable pub get_workspace :
    World → Text → Text → Option Permission → Manager → Option Loaded × Manager
get_workspace w id user_id permission m =
    let r = get_workspace_or_throw w id user_id permission m in (outcome_or_null r.0, r.1)
