-- ===== src/Workspaces/Imports.antt =====
-- `#indexWorkspaceFromDisk` and `addRemoteWorkspace` of src/core/workspace/index.js: workspaces that come in with an id and a
-- name of their own. Each loop over suffixes gets one round more than the name index has entries.
pub mod Named
use canvas_server.Prelude.{
  ℕ, suc, ◌||◌, ◌&&◌, not, Bool, true, false, Option, none, some, List, [], ◌∷◌, ◌++◌, String, Text,
  codes, text_eq, or_else, is_some, find, length, if◌then◌else◌, Casing, lookup, insert, remove,
  text_key, map, nat_eq,
}
use canvas_server.Access.Resolve.{Acl}
use canvas_server.Workspaces.References.{construct_workspace_reference}
use canvas_server.Workspaces.Indexes.Defs.{
  Origin, remote, Status, available, active, offline, Entry, Remote, Credentials, Loaded, Manager,
  truthy, is_remote, host_of, key_of, name_key, entry_at, set_entry, add_to_indexes,
  remove_from_indexes, add_remote_ref, user_index,
}
use canvas_server.Workspaces.Names.{sanitize_workspace_name}
use canvas_server.Workspaces.Suffix.{first_free}
use canvas_server.Workspaces.Registry.{unloaded}

pub data Layout : Type 0 where
  full home : Layout

-- A workspace.json without the index-only fields.
pub record Config : Type 0 where
  pub id : Text
  pub name : Text
  pub label : Text
  pub owner : Option Text
  pub host : Option Text
  pub reference : Option Text
  pub layout : Option Layout
  pub is_universe : Bool
  pub root_path : Option Text
  pub config_path : Option Text
  pub acl : Option Acl
  pub updated_at : ℕ

pub data Kind : Type 0 where
  discovered adopted updated : Kind

pub record Report : Type 0 where
  pub kind : Kind
  pub id : Text
  pub name : Text
  pub imported_from : Option Text

-- What the disk says of a directory: `path.resolve` of a path, whether a path exists, the layout
-- that the place of the config file shows.
pub record Disk : Type 0 where
  pub resolve : Text → Text
  pub exists : Text → Bool
  pub dir : Text
  pub config_path : Text
  pub inferred : Layout

-- The id that a directory is registered under, and what is known of it so far.
pub record Incoming : Type 0 where
  pub id : Text
  pub kind : Kind
  pub changed : Bool

abbrev pub same_layout : Layout → Layout → Bool
same_layout full full = true
same_layout home home = true
same_layout _ _ = false

-- `normalizeWorkspaceLayout(cfg.layout) !== inferredLayout || !cfg.layout`
abbrev pub layout_changes : Option Layout → Layout → Bool
layout_changes none inferred = true
layout_changes (some l) inferred = not (same_layout l inferred)

-- The owner and the entry that the id index leads to.
unfoldable pub existing_of : Text → Manager → Option (Text × Entry)
existing_of id m = elim (truthy (lookup id m.ids)) [
  | none ↦ none
  | some owner ↦ elim (entry_at owner id m) [ none ↦ none | some e ↦ some (owner, e) ]
]

abbrev pub is_same_path : Disk → Option Text → Bool
is_same_path d none = false
is_same_path d (some path) = text_eq (d.resolve path) (d.resolve d.dir)

abbrev pub is_gone : Disk → Option Text → Bool
is_gone d none = true
is_gone d (some path) = not (d.exists path)

abbrev pub incoming : Text → Kind → Bool → Incoming
incoming id kind changed = record { id = id; kind = kind; changed = changed }

-- The id collision: the entry of the same directory is refreshed, one of a directory that is gone
-- is replaced, and a live duplicate gets a fresh id.
unfoldable pub collided :
    Disk → Text → Text → Text → Bool → Option (Text × Entry) → Manager → Incoming × Manager
collided d user_id id uuid changed none m = (incoming id discovered changed, m)
collided d user_id id uuid changed (some (owner, e)) m =
    if text_eq owner user_id && is_same_path d (truthy e.root_path)
    then (incoming id updated changed, m)
    else if text_eq owner user_id && is_gone d (truthy e.root_path)
    then (
      incoming id updated changed,
      remove_from_indexes user_id id e.name (host_of e.host) e.reference m,
    )
    else (incoming uuid discovered true, m)

-- A name whose key leads to another id.
unfoldable pub is_taken : Text → Text → Text → Manager → Text → Bool
is_taken user_id host id m name = elim (truthy (lookup (key_of user_id host name) m.names)) [
  | none ↦ false
  | some holder ↦ not (text_eq holder id)
]

abbrev pub base_name : Casing → Text → Text
base_name u name = or_else (truthy (some (sanitize_workspace_name u name))) (codes "workspace")

-- `importedFrom`: the owner in the config, if it is another one.
abbrev pub foreign_owner : Text → Option Text → Option Text
foreign_owner user_id none = none
foreign_owner user_id (some o) = if text_eq o user_id then none else truthy (some o)

abbrev pub is_adopted : Text → Option Text → Bool
is_adopted user_id none = true
is_adopted user_id (some o) = not (text_eq o user_id)

abbrev pub adopted_kind : Bool → Kind → Kind
adopted_kind true discovered = adopted
adopted_kind _ kind = kind

abbrev pub is_text : Option Text → Text → Bool
is_text none t = false
is_text (some s) t = text_eq s t

abbrev pub first_some : Option Text → Option Text → Option Text
first_some none b = b
first_some (some a) b = some a

abbrev pub old_import : Option Entry → Option Text
old_import none = none
old_import (some e) = e.imported_from

abbrev pub old_remote : Option Entry → Option Remote
old_remote none = none
old_remote (some e) = e.remote

-- The entry of a directory.
unfoldable pub disk_entry :
    Disk → Config → Text → Text → Text → Text → Origin → Option Entry → Bool → ℕ → Manager → Entry
disk_entry d cfg user_id id name reference origin previous changed now m = record {
  id = id;
  name = name;
  label = cfg.label;
  owner = user_id;
  host = cfg.host;
  reference = some reference;
  origin = origin;
  is_universe = cfg.is_universe;
  status = if is_some (lookup id m.loaded) then active else available;
  root_path = some d.dir;
  config_path = some d.config_path;
  acl = cfg.acl;
  imported_from = first_some (foreign_owner user_id cfg.owner) (old_import previous);
  remote = old_remote previous;
  updated_at = if changed then now else cfg.updated_at;
}

-- Whether workspace.json is written back.
abbrev pub is_changed : Disk → Config → Text → Text → Text → Bool → Bool
is_changed d cfg user_id name reference changed =
    changed
    || is_adopted user_id cfg.owner
    || not (text_eq name cfg.name)
    || not (is_text cfg.reference reference)
    || not (is_text cfg.root_path d.dir)
    || not (is_text cfg.config_path d.config_path)

-- A routine rescan of an unchanged workspace is not reported.
abbrev pub report_of : Kind → Bool → Option Entry → Report → Option Report
report_of updated false (some e) report = none
report_of _ _ _ report = some report

abbrev pub registered :
    Disk → Config → Text → Text → Incoming → Origin → ℕ → Manager → Text → Option Report × Manager
registered d cfg user_id name i origin now m reference =
    let previous = entry_at user_id i.id m in
    let changed = is_changed d cfg user_id name reference i.changed in
    let kind = adopted_kind (is_adopted user_id cfg.owner) i.kind in
    (
      report_of kind changed previous (record {
        kind = kind;
        id = i.id;
        name = name;
        imported_from = foreign_owner user_id cfg.owner;
      }),
      add_to_indexes user_id i.id name (host_of cfg.host) (some reference) (
          set_entry user_id i.id
            (disk_entry d cfg user_id i.id name reference origin previous changed now m) m),
    )

pub data Import : Type 0 where
  out_of_rounds refused : Import
  imported : Option Report → Import

abbrev pub with_reference :
    Disk → Config → Text → Text → Incoming → Origin → ℕ → Manager → Option Text → Import × Manager
with_reference d cfg user_id name i origin now m none = (refused, m)
with_reference d cfg user_id name i origin now m (some reference) =
    let r = registered d cfg user_id name i origin now m reference in (imported r.0, r.1)

abbrev pub with_name :
    Disk → Config → Text → Incoming → Origin → ℕ → Manager → Option Text → Import × Manager
with_name d cfg user_id i origin now m none = (out_of_rounds, m)
with_name d cfg user_id i origin now m (some name) =
    with_reference d cfg user_id name i origin now m
      (construct_workspace_reference user_id name (host_of cfg.host) [])

-- The name loop.
unfoldable pub free_name : Casing → Text → Text → Text → Text → Manager → Option Text
free_name u user_id host id name m =
    first_free (is_taken user_id host id m) (base_name u name) (suc (length m.names)) 1

abbrev pub named :
    Casing → Disk → Config → Text → Origin → ℕ → Incoming × Manager → Import × Manager
named u d cfg user_id origin now (i, m) =
    with_name d cfg user_id i origin now m (free_name u user_id (host_of cfg.host) i.id cfg.name m)

-- The part of `#indexWorkspaceFromDisk` before the owner is adopted.
unfoldable pub incoming_of : Disk → Config → Text → Text → Manager → Incoming × Manager
incoming_of d cfg user_id uuid m =
    collided d user_id cfg.id uuid (layout_changes cfg.layout d.inferred) (existing_of cfg.id m) m

-- `#indexWorkspaceFromDisk`, with the id that `uuidv4` gives
unfoldable pub index_workspace_from_disk :
    Casing → Disk → Config → Text → Origin → Text → ℕ → Manager → Import × Manager
index_workspace_from_disk u d cfg user_id origin uuid now m =
    named u d cfg user_id origin now (incoming_of d cfg user_id uuid m)
