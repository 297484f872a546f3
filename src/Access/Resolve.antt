-- ===== src/Access/Resolve.antt =====
-- `resolveAclAccess` of src/core/workspace/lib/access.js.
pub mod Sound
pub mod Widest
use canvas_server.Prelude.{
  ℕ, Bool, true, false, ◌&&◌, not, Option, none, some, List, [], ◌∷◌, String, Text, text_eq,
  or_else, any, ltb, length, Dict, if◌then◌else◌, Casing, folded,
}
use canvas_server.Access.Permissions.{Permission, Spec, normalize_permissions}
use canvas_server.Access.Groups.{group_matches}

-- A stored grant.
pub record Grant : Type 0 where
  pub permissions : Spec
  pub description : Option String
  pub granted_at : Option String
  pub granted_by : Option Text
  pub updated_at : Option String
  pub updated_by : Option Text

-- The entries of `acl.users` or `acl.groups`, in the order of `Object.entries`; a value may be
-- null.
abbrev pub Grants : Type 0
Grants = List (Text × Option Grant)

-- A share token as it is stored; times are numbers of milliseconds.
pub record Token : Type 0 where
  pub id : String
  pub name : String
  pub description : String
  pub permissions : Option (List String)
  pub created_at : ℕ
  pub expires_at : Option ℕ

-- The `acl` of a workspace.json.
pub record Acl : Type 0 where
  pub tokens : Option (Dict Token)
  pub users : Option Grants
  pub groups : Option Grants

pub record Principal : Type 0 where
  pub email : Option Text
  pub groups : Option (List (Option Text))

pub data Via : Type 0 where
  user group : Via

pub record Access : Type 0 where
  pub permissions : List Permission
  pub via : Via
  pub principal : Text
  pub grant : Grant

-- `permissions.length > best.permissions.length`, true while there is no best
unfoldable pub wider : List Permission → Option Access → Bool
wider ps none = true
wider ps (some best) = ltb (length best.permissions) (length ps)

module _ (u : Casing) where
  -- `normalizeEmail`
  unfoldable pub normalize_email : Option Text → Text
  normalize_email email = folded u (or_else email [])

  -- The result for one entry.
  abbrev pub access_of : Via → Text → Grant → Access
  access_of via key grant = record {
    permissions = normalize_permissions u grant.permissions;
    via = via;
    principal = key;
    grant = grant;
  }

  -- The loop over `acl.users`.
  unfoldable pub user_access : Text → Grants → Option Access
  user_access email [] = none
  user_access email ((key, none) ∷ rest) = user_access email rest
  user_access email ((key, some grant) ∷ rest) =
      if text_eq (normalize_email (some key)) email
      then some (access_of user key grant)
      else user_access email rest

  -- One round of the loop over `acl.groups`.
  unfoldable pub better : Text → Grant → Option Access → Option Access
  unfolding wider
  better key grant best =
      if wider (normalize_permissions u grant.permissions) best
      then some (access_of group key grant)
      else best

  -- The loop over `acl.groups`, with the best access so far.
  unfoldable pub group_access : List (Option Text) → Grants → Option Access → Option Access
  group_access groups [] best = best
  group_access groups ((key, none) ∷ rest) best = group_access groups rest best
  group_access groups ((key, some grant) ∷ rest) best =
      group_access groups rest
        (if any (λ g. group_matches u (some key) g) groups then better key grant best else best)

  -- The branch on e-mail: no user entry is looked at if the e-mail is empty.
  unfoldable pub by_user : Text → Option Grants → Option Access
  by_user [] users = none
  by_user (c ∷ email) none = none
  by_user (c ∷ email) (some users) = user_access (c ∷ email) users

  -- The branch on groups.
  unfoldable pub by_group : List (Option Text) → Option Grants → Option Access
  by_group [] groups = none
  by_group (g ∷ gs) none = none
  by_group (g ∷ gs) (some groups) = group_access (g ∷ gs) groups none

  unfoldable pub resolve_acl_access : Option Acl → Option Principal → Option Access
  unfolding by_user by_group
  resolve_acl_access none principal = none
  resolve_acl_access (some acl) none = none
  resolve_acl_access (some acl) (some p) = elim (by_user (normalize_email p.email) acl.users) [
    | some access ↦ some access
    | none ↦ by_group (or_else p.groups []) acl.groups
  ]
