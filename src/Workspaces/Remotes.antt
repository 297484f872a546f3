-- ===== src/Workspaces/Remotes.antt =====
-- Workspaces on other servers in src/core/workspace/index.js. The label of a url's host is a parameter, since it is read
-- with the URL parser of the host.
pub mod Named
use canvas_server.Prelude.{
  ℕ, suc, ◌&&◌, Bool, true, false, Option, none, some, List, [], ◌∷◌, ◌++◌, String, Text, text_eq,
  nat_eq, or_else, is_some, length, if◌then◌else◌, Casing, lookup, insert, text_key,
}
use canvas_server.Workspaces.Indexes.Defs.{
  Origin, remote, offline, Entry, Remote, RemoteRef, Credentials, Manager, truthy, is_remote,
  name_key, entry_at, set_entry, add_to_indexes, add_remote_ref, user_index, Loaded,
}
use canvas_server.Workspaces.Names.{get_workspace_index_entry}
use canvas_server.Workspaces.Guarded.{World}
use canvas_server.Workspaces.Registry.{unloaded, remove_workspace}
use canvas_server.Workspaces.Imports.{base_name}
use canvas_server.Workspaces.Suffix.{first_free}

-- What the resolved token says of the remote workspace.
pub record Descriptor : Type 0 where
  pub url : Text
  pub token : Text
  pub workspace_id : Text
  pub workspace_name : Option Text
  pub label : Option Text
  pub permissions : List String

pub data Added : Type 0 where
  url_and_token_required id_required out_of_rounds : Added
  added : Entry → Added

strip_slashes : Text → Text
strip_slashes [] = []
strip_slashes (c ∷ s) = elim (strip_slashes s) [
  | [] ↦ if nat_eq c b'/' then [] else c ∷ []
  | d ∷ t ↦ c ∷ d ∷ t
]

-- `String(url).replace(/\/+$/, '')`
unfoldable pub normalized_url : Text → Text
unfolding strip_slashes
normalized_url url = strip_slashes url

abbrev is_same_remote : Text → Text → Entry → Bool
is_same_remote url id e =
    is_remote e
    && elim e.remote [ none ↦ false | some r ↦ text_eq r.url url && text_eq r.workspace_id id ]

-- The loop over the user's index for the same url and workspace.
unfoldable pub existing_remote : Text → Text → List (Text × Entry) → Option Entry
existing_remote url id [] = none
existing_remote url id ((k, e) ∷ rest) =
    if is_same_remote url id e then some e else existing_remote url id rest

refreshed_remote : Descriptor → Option Remote → Option Remote
refreshed_remote d none = none
refreshed_remote d (some r) = some (record r {
  workspace_name = elim (truthy d.workspace_name) [ none ↦ r.workspace_name | some n ↦ some n ];
  permissions = d.permissions;
})

-- The entry that is there, with what the token says now.
unfoldable pub refreshed : Descriptor → ℕ → Entry → Entry
unfolding refreshed_remote
refreshed d now e = record e {
  label = or_else (truthy d.label) e.label;
  remote = refreshed_remote d e.remote;
  updated_at = now;
}

-- A new entry.
unfoldable pub remote_entry : Text → Text → Text → Text → Text → Descriptor → ℕ → Entry
remote_entry user_id url host id name d now = record {
  id = id;
  name = name;
  label = or_else (truthy d.label) (or_else (truthy d.workspace_name) d.workspace_id);
  owner = user_id;
  host = some host;
  reference = none;
  origin = remote;
  is_universe = false;
  status = offline;
  root_path = none;
  config_path = none;
  acl = none;
  imported_from = none;
  remote = some (record {
    url = url;
    workspace_id = d.workspace_id;
    workspace_name = truthy d.workspace_name;
    permissions = d.permissions;
    added_at = now;
  });
  updated_at = now;
}

-- `<name>@<host>`
abbrev pub at_host : Text → Text → Text
at_host host name = name ++ b'@' ∷ host

-- `this.#nameIndex.has(nameKey(userId, name, host))`
unfoldable pub is_held : Text → Text → Manager → Text → Bool
is_held user_id host m name = is_some (lookup (name_key user_id (at_host host name) host) m.names)

-- The loop that looks for a name.
unfoldable pub remote_name : Casing → Text → Text → Option Text → Manager → Option Text
remote_name u user_id host name m =
    first_free (is_held user_id host m) (base_name u (or_else name [])) (suc (length m.names)) 1

-- A cached facade of the entry holds the old token.
abbrev pub uncached : Bool → Text → Manager → Manager
uncached true id m = unloaded id m
uncached false id m = m

-- What is stored of an entry, and its lookups.
abbrev pub stored_remote :
    Text → Text → Text → Descriptor → Bool → Entry → Manager → Added × Manager
stored_remote user_id url host d existed e m =
    let m1 = set_entry user_id e.id e m in
    let m2 = record m1 {
      remote_indexes =
          insert user_id
            (insert e.id (record { url = url; workspace_id = d.workspace_id; token = d.token })
              (or_else (lookup user_id m1.remote_indexes) []))
            m1.remote_indexes;
    } in
    (
      added e,
      uncached existed e.id (add_remote_ref e (add_to_indexes user_id e.id e.name host none m2)),
    )

abbrev pub new_remote :
    Text → Text → Text → Text → Descriptor → ℕ → Manager → Option Text → Added × Manager
new_remote user_id url host uuid d now m none = (out_of_rounds, m)
new_remote user_id url host uuid d now m (some name) =
    let id = if is_some (lookup d.workspace_id m.ids) then uuid else d.workspace_id in
    stored_remote user_id url host d false
      (remote_entry user_id url host id (at_host host name) d now) m

abbrev pub placed_remote :
    Casing → Text → Text → Text → Text → Descriptor → ℕ → Manager → Option Entry → Added × Manager
placed_remote u user_id url host uuid d now m (some e) =
    stored_remote user_id url host d true (refreshed d now e) m
placed_remote u user_id url host uuid d now m none =
    new_remote user_id url host uuid d now m (remote_name u user_id host d.workspace_name m)

-- `addRemoteWorkspace`, with the id that `uuidv4` gives
unfoldable pub add_remote_workspace :
    Casing → (Text → Text) → Text → Descriptor → Text → ℕ → Manager → Added × Manager
add_remote_workspace u host_label user_id d uuid now m =
    let url = normalized_url d.url in
    if text_eq d.url []
    then (url_and_token_required, m)
    else if text_eq d.token []
    then (url_and_token_required, m)
    else if text_eq d.workspace_id []
    then (id_required, m)
    else placed_remote u user_id url (host_label url) uuid d now m
        (existing_remote url d.workspace_id (user_index user_id m))

abbrev remote_only : Text → Option RemoteRef → Manager → Option Entry
remote_only identifier none m = none
remote_only identifier (some ref) m = elim (entry_at ref.owner ref.id m) [
  | none ↦ none
  | some e ↦ if is_remote e then some e else none
]

-- `peekRemoteWorkspaceEntry`
unfoldable pub peek_remote_workspace_entry : Text → Manager → Option Entry
peek_remote_workspace_entry [] m = none
peek_remote_workspace_entry (c ∷ identifier) m =
    remote_only (c ∷ identifier) (lookup (c ∷ identifier) m.remote_refs) m

abbrev removed_remote : World → Text → Option Entry × Manager → Bool × Manager
removed_remote w user_id (none, m) = (false, m)
removed_remote w user_id (some e, m) =
    if is_remote e then remove_workspace w e.id user_id m else (false, m)

-- `removeRemoteWorkspace`
unfoldable pub remove_remote_workspace : World → Text → Text → Manager → Bool × Manager
remove_remote_workspace w user_id id m =
    removed_remote w user_id (get_workspace_index_entry w id user_id m)
