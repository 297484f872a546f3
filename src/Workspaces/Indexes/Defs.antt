-- ===== src/Workspaces/Indexes/Defs.antt =====
-- `#nameKey`, `#addToIndexes`, `#removeFromIndexes`, `#findInIndex`, `#rebuildIndexes` and `#addRemoteRef` of
-- src/core/workspace/index.js, with the state that they share.
use canvas_server.Prelude.{
  ℕ, Bool, true, false, ◌||◌, Option, none, some, List, [], ◌∷◌, ◌++◌, String, Text, text_eq,
  or_else, if◌then◌else◌, lookup, insert, remove, text_key,
}
use canvas_server.Access.Resolve.{Acl}
use canvas_server.Context.Url.{cut_at}
use canvas_server.Gate.Request.{Call}
use canvas_server.Workspaces.References.{default_host}

-- `WORKSPACE_ORIGINS`
pub data Origin : Type 0 where
  local foreign_local remote : Origin

-- `WORKSPACE_STATUS_CODES`
pub data Status : Type 0 where
  available not_found error active inactive removed destroyed offline : Status

-- The descriptor of a workspace on another server.
pub record Remote : Type 0 where
  pub url : Text
  pub workspace_id : Text
  pub workspace_name : Option Text
  pub permissions : List String
  pub added_at : ℕ

-- An entry of a user's index, as far as the manager reads it.
pub record Entry : Type 0 where
  pub id : Text
  pub name : Text
  pub label : Text
  pub owner : Text
  pub host : Option Text
  pub reference : Option Text
  pub origin : Origin
  pub is_universe : Bool
  pub status : Status
  pub root_path : Option Text
  pub config_path : Option Text
  pub acl : Option Acl
  pub imported_from : Option Text
  pub remote : Option Remote
  pub updated_at : ℕ

-- What the remote-workspaces index keeps of a remote workspace.
pub record Credentials : Type 0 where
  pub url : Text
  pub workspace_id : Text
  pub token : Text

pub record RemoteRef : Type 0 where
  pub owner : Text
  pub id : Text

-- A workspace instance that is in memory; the getter of `acl` may throw.
pub record Loaded : Type 0 where
  pub id : Text
  pub owner : Text
  pub acl : Call (Option Acl)
  pub is_remote : Bool
  pub is_universe : Bool

pub record Manager : Type 0 where
  pub indexes : List (Text × List (Text × Entry))
  pub remote_indexes : List (Text × List (Text × Credentials))
  pub names : List (Text × Text)
  pub ids : List (Text × Text)
  pub references : List (Text × Text)
  pub remote_refs : List (Text × RemoteRef)
  pub loaded : List (Text × Loaded)

-- An empty text is falsy.
abbrev pub truthy : Option Text → Option Text
truthy none = none
truthy (some []) = none
truthy (some (c ∷ s)) = some (c ∷ s)

abbrev pub is_remote : Entry → Bool
is_remote e = elim e.origin [ remote ↦ true | _ ↦ false ]

-- `entry.host || WORKSPACE_DEFAULT_HOST`
abbrev pub host_of : Option Text → Text
host_of h = or_else (truthy h) default_host

-- `${userId}@${host}:${name}`
abbrev pub key_of : Text → Text → Text → Text
key_of user host name = user ++ (b'@' ∷ (host ++ (b':' ∷ name)))

key_around : Text → Text → Text → Option (Text × Text) → Text
key_around user name host none = key_of user host name
key_around user name host (some ([], at)) = key_of user host name
key_around user name host (some (c ∷ bare, at)) = key_of user at (c ∷ bare)

-- `#nameKey`
unfoldable pub name_key : Text → Text → Text → Text
unfolding key_around
name_key user name host = key_around user name host (cut_at name)

abbrev pub entry_key : Text → Entry → Text
entry_key user e = name_key user e.name (host_of e.host)

-- `#getUserIndex(user).store`
abbrev pub user_index : Text → Manager → List (Text × Entry)
user_index user m = or_else (lookup user m.indexes) []

-- `#getUserIndex(user).get(id)`
unfoldable pub entry_at : Text → Text → Manager → Option Entry
entry_at user id m = lookup id (user_index user m)

-- `#getUserIndex(user).set(id, entry)`
unfoldable pub set_entry : Text → Text → Entry → Manager → Manager
set_entry user id e m = record m {
  indexes = insert user (insert id e (user_index user m)) m.indexes;
}

-- `#getUserIndex(user).delete(id)`
unfoldable pub delete_entry : Text → Text → Manager → Manager
delete_entry user id m = record m {
  indexes = insert user (remove id (user_index user m)) m.indexes;
}

unfoldable pub insert_reference : Option Text → Text → List (Text × Text) → List (Text × Text)
insert_reference none id refs = refs
insert_reference (some r) id refs = insert r id refs

unfoldable pub remove_reference : Option Text → List (Text × Text) → List (Text × Text)
remove_reference none refs = refs
remove_reference (some r) refs = remove r refs

-- `#addToIndexes`
unfoldable pub add_to_indexes : Text → Text → Text → Text → Option Text → Manager → Manager
unfolding insert_reference
add_to_indexes user id name host reference m = record m {
  names = insert (name_key user name host) id m.names;
  ids = insert id user m.ids;
  references = insert_reference (truthy reference) id m.references;
}

-- The references to remote workspaces without those of an id and of a name.
abbrev without_refs : Text → Text → List (Text × RemoteRef) → List (Text × RemoteRef)
without_refs id [] refs = remove id refs
without_refs id (c ∷ name) refs = remove (c ∷ name) (remove id refs)

-- `#removeFromIndexes`
unfoldable pub remove_from_indexes : Text → Text → Text → Text → Option Text → Manager → Manager
unfolding remove_reference
remove_from_indexes user id name host reference m = record m {
  names = remove (name_key user name host) m.names;
  ids = remove id m.ids;
  references = remove_reference (truthy reference) m.references;
  remote_refs = without_refs id name m.remote_refs;
}

abbrev with_name : Text → RemoteRef → List (Text × RemoteRef) → List (Text × RemoteRef)
with_name [] ref refs = refs
with_name (c ∷ name) ref refs = insert (c ∷ name) ref refs

-- `#addRemoteRef`
unfoldable pub add_remote_ref : Entry → Manager → Manager
add_remote_ref e m =
    let ref : RemoteRef = record { owner = e.owner; id = e.id } in
    record m { remote_refs = with_name e.name ref (insert e.id ref m.remote_refs) }

-- The entries of one user, with the user: `for (const wsId in store)`.
unfoldable pub entries_of : Text → List (Text × Entry) → List (Text × Entry) → List (Text × Entry)
entries_of user store [] = []
entries_of user store ((id, shown) ∷ rest) =
    let others = entries_of user store rest in
    elim (lookup id store) [ none ↦ others | some e ↦ (user, e) ∷ others ]

-- `#allEntries`
unfoldable pub all_entries : List Text → Manager → List (Text × Entry)
all_entries [] m = []
all_entries (user ∷ order) m =
    entries_of user (user_index user m) (user_index user m) ++ all_entries order m

-- The scan of `#findInIndex`.
unfoldable pub scan_for : Text → List (Text × Entry) → Option (Text × Entry)
scan_for id [] = none
scan_for id ((user, e) ∷ rest) = if text_eq e.id id then some (user, e) else scan_for id rest

abbrev repaired : Text → Option (Text × Entry) → Manager → Option Entry × Manager
repaired id none m = (none, m)
repaired id (some (user, e)) m = (some e, record m { ids = insert id user m.ids })

-- The entry that the id index leads to.
unfoldable pub indexed_entry : Text → Manager → Option Entry
indexed_entry id m = elim (truthy (lookup id m.ids)) [
  | none ↦ none
  | some owner ↦ entry_at owner id m
]

-- `#findInIndex`, with the repair of the id index
unfoldable pub find_in_index : List Text → Text → Manager → Option Entry × Manager
find_in_index order id m = elim (indexed_entry id m) [
  | some e ↦ (some e, m)
  | none ↦ repaired id (scan_for id (all_entries order m)) m
]

-- What the loop of `#rebuildIndexes` does with one entry.
unfoldable pub reindex : Text → Entry → Manager → Manager
unfolding add_to_indexes add_remote_ref
reindex user e m =
    let shown = if is_remote e then add_remote_ref e m else m in
    if text_eq e.owner [] || text_eq e.name []
    then shown
    else add_to_indexes user e.id e.name (host_of e.host) e.reference shown

unfoldable pub reindex_all : List (Text × Entry) → Manager → Manager
reindex_all [] m = m
reindex_all ((user, e) ∷ rest) m = reindex_all rest (reindex user e m)

abbrev cleared : Manager → Manager
cleared m = record m { names = []; ids = []; references = []; remote_refs = [] }

-- `#rebuildIndexes`
unfoldable pub rebuild_indexes : List Text → Manager → Manager
rebuild_indexes order m = reindex_all (all_entries order m) (cleared m)
