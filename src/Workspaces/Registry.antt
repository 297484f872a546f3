-- ===== src/Workspaces/Registry.antt =====
-- `createWorkspace`, `removeWorkspace`, `transferWorkspaceOwnership`, `addRemoteWorkspace` and `#indexWorkspaceFromDisk` of
-- src/core/workspace/index.js, as far as they change the manager's state. What the disk answers is an argument.
pub mod Moves
pub mod Refined
pub mod Views
pub mod Removed
pub mod Created
use canvas_server.Prelude.{
  ℕ, suc, ◌||◌, not, ◌&&◌, Bool, true, false, Option, none, some, List, [], ◌∷◌, ◌++◌, Text,
  text_eq, or_else, is_some, length, if◌then◌else◌, lookup, insert, remove, text_key, String, Dict,
}
use canvas_server.Access.Resolve.{Acl, Token}
use canvas_server.Workspaces.References.{default_host, construct_workspace_reference}
use canvas_server.Workspaces.Indexes.Defs.{
  Origin, local, foreign_local, remote, Status, available, active, offline, Entry, Remote,
  Credentials, Loaded, Manager, truthy, is_remote, host_of, key_of, name_key, entry_at, set_entry,
  delete_entry, add_to_indexes, remove_from_indexes, add_remote_ref, find_in_index, user_index,
}
use canvas_server.Workspaces.Names.{
  sanitize_workspace_name, resolve_own_workspace_id, get_workspace_index_entry,
}
use canvas_server.Workspaces.Guarded.{World, get_workspace}
use canvas_server.Workspaces.Suffix.{first_free}
use canvas_server.Access.Permissions.{read}

pub data Error : Type 0 where
  name_and_user_required name_exists directory_refused reference_refused : Error
  workspace_not_found new_owner_required universe_keeps_owner remote_keeps_owner name_taken : Error
  out_of_rounds : Error

pub data Result : Type 0 where
  refused : Error → Result
  done : Entry → Result

pub record Options : Type 0 where
  pub host : Option Text
  pub label : Option Text
  pub is_universe : Bool
  pub acl : Option Acl

-- The directory of a new workspace: none if one is there that cannot be taken.
pub record Place : Type 0 where
  pub root_path : Text
  pub config_path : Text
  pub origin : Origin

abbrev empty_acl : Acl
empty_acl = record { tokens = some []; users = some []; groups = none }

-- `configData` with the index-only fields.
unfoldable pub new_entry : Text → Text → Text → Text → Options → Place → Text → ℕ → Entry
new_entry id user_id slug host options place reference now = record {
  id = id;
  name = slug;
  label = or_else (truthy options.label) slug;
  owner = user_id;
  host = some host;
  reference = some reference;
  origin = place.origin;
  is_universe = options.is_universe;
  status = available;
  root_path = some place.root_path;
  config_path = some place.config_path;
  acl = some (or_else options.acl empty_acl);
  imported_from = none;
  remote = none;
  updated_at = now;
}

abbrev pub stored_new : Entry → Manager → Result × Manager
stored_new e m = (
  done e,
  add_to_indexes e.owner e.id e.name (host_of e.host) e.reference (set_entry e.owner e.id e m),
)

-- The rest of `createWorkspace` once the name is known to be free.
abbrev pub placed :
    Text → Text → Text → Text → Options → Option Place → ℕ → Manager → Result × Manager
placed id user_id slug host options none now m = (refused directory_refused, m)
placed id user_id slug host options (some place) now m =
    elim (construct_workspace_reference user_id slug host []) [
      | none ↦ (refused reference_refused, m)
      | some reference ↦ stored_new (new_entry id user_id slug host options place reference now) m
    ]

-- `createWorkspace`, with the id that `uuidv4` gives
unfoldable pub create_workspace :
    World → Text → Text → Options → Text → Option Place → ℕ → Manager → Result × Manager
create_workspace w name user_id options uuid place now m =
    if text_eq name [] || text_eq user_id []
    then (refused name_and_user_required, m)
    else let slug = sanitize_workspace_name w.casing name in
      let host = host_of options.host in
      if is_some (resolve_own_workspace_id w.casing user_id slug host m)
      then (refused name_exists, m)
      else placed uuid user_id slug host options place now m

-- An instance that is taken out of memory.
unfoldable pub unloaded : Text → Manager → Manager
unloaded id m = record m { loaded = remove id m.loaded }

-- The credentials of a remote entry go with it.
unfoldable pub without_credentials :
    Entry → List (Text × List (Text × Credentials)) → List (Text × List (Text × Credentials))
without_credentials e stores =
    if is_remote e
    then insert e.owner (remove e.id (or_else (lookup e.owner stores) [])) stores
    else stores

abbrev pub forgotten : Entry → Manager → Manager
forgotten e m = record m { remote_indexes = without_credentials e m.remote_indexes }

abbrev pub removed : Entry → Manager → Manager
removed e m =
    remove_from_indexes e.owner e.id e.name (host_of e.host) e.reference
      (forgotten e (delete_entry e.owner e.id (unloaded e.id m)))

abbrev pub removed_entry : World → Text → Option Entry → Manager → Bool × Manager
removed_entry w user_id none m = (false, m)
removed_entry w user_id (some e) m =
    (true, removed e (get_workspace w e.id user_id (some read) m).1)

-- `removeWorkspace`; the instance that it stops is loaded for that
unfoldable pub remove_workspace : World → Text → Text → Manager → Bool × Manager
remove_workspace w id user_id m =
    let r = get_workspace_index_entry w id user_id m in removed_entry w user_id r.0 r.1

-- The entry and the indexes under the new owner.
abbrev pub handed_over : Entry → Entry → Manager → Manager
handed_over e f m = add_to_indexes f.owner f.id f.name (host_of f.host) f.reference (
    set_entry f.owner f.id f (
      remove_from_indexes e.owner e.id e.name (host_of e.host) e.reference
        (delete_entry e.owner e.id m)))

abbrev pub transferred : Text → Text → ℕ → Entry → Option Text → Manager → Result × Manager
transferred new_owner host now e none m = (refused reference_refused, m)
transferred new_owner host now e (some reference) m =
    let f : Entry = record e { owner = new_owner; reference = some reference; updated_at = now } in
    (done f, handed_over e f m)

-- The guards of `transferWorkspaceOwnership` on an entry that would change hands.
unfoldable pub transfer_guard : Text → Entry → Manager → Option Error
transfer_guard new_owner e m =
    if e.is_universe
    then some universe_keeps_owner
    else if is_remote e
    then some remote_keeps_owner
    else if is_some (truthy (lookup (name_key new_owner e.name (host_of e.host)) m.names))
    then some name_taken
    else none

abbrev pub transfer_after : Text → ℕ → Entry → Manager → Option Error → Result × Manager
transfer_after new_owner now e m (some x) = (refused x, m)
transfer_after new_owner now e m none =
    transferred new_owner (host_of e.host) now e
      (construct_workspace_reference new_owner e.name (host_of e.host) []) (unloaded e.id m)

-- What `transferWorkspaceOwnership` does with the entry that it finds.
unfoldable pub transfer_entry : Text → ℕ → Entry → Manager → Result × Manager
transfer_entry new_owner now e m =
    if text_eq new_owner []
    then (refused new_owner_required, m)
    else if text_eq e.owner new_owner
    then (done e, m)
    else transfer_after new_owner now e m (transfer_guard new_owner e m)

abbrev pub transfer_found : Text → ℕ → Option Entry × Manager → Result × Manager
transfer_found new_owner now (none, m) = (refused workspace_not_found, m)
transfer_found new_owner now (some e, m) = transfer_entry new_owner now e m

-- `transferWorkspaceOwnership`
unfoldable pub transfer_workspace_ownership : World → Text → Text → ℕ → Manager → Result × Manager
transfer_workspace_ownership w id new_owner now m =
    transfer_found new_owner now (find_in_index w.order id m)
