-- ===== src/Access/Members.antt =====
-- src/core/workspace/lib/WorkspaceMembers.js. The config store holds the `acl`; an operation takes
-- what `configStore.get('acl')` returns and gives the `acl` that it sets. `now` is the time stamp.
pub mod Tables
pub mod Laws
pub mod Reads
use canvas_server.Prelude.{
  Bool, true, false, not, Option, none, some, List, [], ◌∷◌, ◌++◌, String, ◌==◌, Text, text_eq,
  or_else, nat_eq, any, ◌||◌, ◌⊎◌, inl, inr, trim, if◌then◌else◌, Casing, folded, lookup, insert,
  remove, text_key,
}
use canvas_server.Access.Permissions.{
  Permission, word, Spec, single, several, normalize_permissions,
}
use canvas_server.Access.Permissions.Canonical.{stored}
use canvas_server.Access.Resolve.{Grant, Grants, Token, Acl, normalize_email}

-- The principal types of `KIND_KEY`.
pub data Kind : Type 0 where
  user group : Kind

pub data Error : Type 0 where
  invalid_email group_name_required no_valid_permission : Error

-- The stored `acl` with its tables filled in: `#acl`.
abbrev pub filled : Option Acl → Acl
filled none = record { tokens = some []; users = some []; groups = some [] }
filled (some acl) = record {
  tokens = some (or_else acl.tokens []);
  users = some (or_else acl.users []);
  groups = some (or_else acl.groups []);
}

-- `acl[KIND_KEY[type]]`
abbrev pub table : Kind → Acl → Grants
table user acl = or_else acl.users []
table group acl = or_else acl.groups []

abbrev pub with_table : Kind → Grants → Acl → Acl
with_table user t acl = record acl { users = some t }
with_table group t acl = record acl { groups = some t }

-- The public shape of a grant.
pub record Member : Type 0 where
  pub kind : Kind
  pub principal : Text
  pub permissions : List Permission
  pub grant : Grant

pub record Options : Type 0 where
  pub permissions : Option Spec
  pub description : Option String
  pub granted_by : Option Text

-- `a || b` on an optional string: the empty string is falsy
abbrev pub truthy : Option String → Option String
truthy none = none
truthy (some s) = if s == "" then none else some s

abbrev pub truthy_text : Option Text → Option Text
truthy_text none = none
truthy_text (some []) = none
truthy_text (some (c ∷ s)) = some (c ∷ s)

abbrev pub either_text : Option Text → Option Text → Option Text
either_text a b = elim (truthy_text a) [ none ↦ b | some s ↦ some s ]

abbrev pub either : Option String → Option String → Option String
either a b = elim (truthy a) [ none ↦ b | some s ↦ some s ]

-- `options.permissions || ['read']`
abbrev pub requested : Option Spec → Spec
requested none = several (some (word Permission.read) ∷ [])
requested (some (single none)) = several (some (word Permission.read) ∷ [])
requested (some (single (some []))) = several (some (word Permission.read) ∷ [])
requested (some spec) = spec

-- What `get` returns: null, or the member; it throws on an entry that is null.
pub data Found : Type 0 where
  missing fault : Found
  found : Member → Found

module _ (u : Casing) where
  -- `normalizePrincipal`
  unfoldable pub normalize_principal : Kind → Text → Error ⊎ Text
  normalize_principal user p =
      let email = folded u p in
      if text_eq email [] || not (any (λ c. nat_eq c b'@') email)
      then inl invalid_email
      else inr email
  normalize_principal group p =
      if text_eq (trim p) [] then inl group_name_required else inr (trim p)

  -- The first entry whose key has the form `w` when trimmed and lower-cased.
  unfoldable pub entry_of : Text → Grants → Option (Text × Option Grant)
  entry_of w [] = none
  entry_of w ((k, g) ∷ rest) = if text_eq (folded u k) w then some (k, g) else entry_of w rest

  abbrev key_or_null : Option (Text × Option Grant) → Option Text
  key_or_null none = none
  key_or_null (some ([], g)) = none
  key_or_null (some (c ∷ k, g)) = some (c ∷ k)

  -- `#findKey`: an empty key is falsy
  unfoldable pub find_key : Kind → Text → Acl → Option Text
  find_key kind principal acl = key_or_null (entry_of (folded u principal) (table kind acl))

  member_at : Kind → Text → Option (Option Grant) → Found
  member_at kind key (some (some g)) = found (record {
    kind = kind;
    principal = key;
    permissions = normalize_permissions u g.permissions;
    grant = g;
  })
  member_at kind key _ = fault

  unfoldable pub get : Kind → Text → Option Acl → Found
  unfolding member_at find_key
  get kind principal store = elim (find_key kind principal (filled store)) [
    | none ↦ missing
    | some key ↦ member_at kind key (lookup key (table kind (filled store)))
  ]

  members_of : Kind → Grants → List Member
  members_of kind [] = []
  members_of kind ((k, none) ∷ rest) = members_of kind rest
  members_of kind ((k, some g) ∷ rest) =
      record {
        kind = kind;
        principal = k;
        permissions = normalize_permissions u g.permissions;
        grant = g;
      }
      ∷ members_of kind rest

  unfoldable pub list : Option Acl → List Member
  unfolding members_of
  list store =
      members_of user (table user (filled store)) ++ members_of group (table group (filled store))

  -- `existingKey ? map[existingKey] : null`, flattened: an entry may be null
  existing_of : Option Text → Grants → Option Grant
  existing_of none t = none
  existing_of (some key) t = or_else (lookup key t) none

  -- The grant that is written.
  unfoldable pub new_grant : String → List Permission → Options → Option Grant → Grant
  new_grant now ps options existing = record {
    permissions = stored u ps;
    description = elim options.description [
      | some d ↦ some d
      | none ↦ elim existing [ none ↦ some "" | some g ↦ some (or_else g.description "") ]
    ];
    granted_at = elim existing [ none ↦ some now | some g ↦ either g.granted_at (some now) ];
    granted_by = elim existing [
      | none ↦ either_text options.granted_by none
      | some g ↦ either_text g.granted_by (either_text options.granted_by none)
    ];
    updated_at = some now;
    updated_by = elim existing [ none ↦ none | some g ↦ truthy_text options.granted_by ];
  }

  -- The table without the entry that is stored under another spelling of the key.
  pub respelled : Option Text → Text → Grants → Grants
  respelled none key t = t
  respelled (some old) key t = if text_eq old key then t else remove old t

  -- `grant` on a principal that is normalised and permissions that are
  granted : String → Kind → Text → List Permission → Options → Acl → Member × Acl
  unfolding existing_of respelled find_key
  granted now kind key ps options acl =
      let old = find_key kind key acl in
      let g = new_grant now ps options (existing_of old (table kind acl)) in
      (
        record { kind = kind; principal = key; permissions = ps; grant = g },
        with_table kind (insert key (some g) (respelled old key (table kind acl))) acl,
      )

  -- The check that a permission is left, and the rest of `grant`.
  grant_checked : String → Kind → Text → List Permission → Options → Acl → Error ⊎ (Member × Acl)
  unfolding granted
  grant_checked now kind key [] options acl = inl no_valid_permission
  grant_checked now kind key (p ∷ ps) options acl = inr (granted now kind key (p ∷ ps) options acl)

  unfoldable pub grant : String → Kind → Text → Options → Option Acl → Error ⊎ (Member × Acl)
  unfolding normalize_principal grant_checked
  grant now kind principal options store = elim (normalize_principal kind principal) [
    | inl e ↦ inl e
    | inr key ↦
        grant_checked now kind key (normalize_permissions u (requested options.permissions)) options
          (filled store)
  ]

  -- The result says whether an entry was removed; without one the store is left as it is.
  unfoldable pub revoke : Kind → Text → Option Acl → Option Acl × Bool
  unfolding find_key
  revoke kind principal store = elim (find_key kind principal (filled store)) [
    | none ↦ (store, false)
    | some key ↦
        (some (with_table kind (remove key (table kind (filled store))) (filled store)), true)
  ]
