-- ===== src/Context/Sharing.antt =====
-- How a context is shared: `grantAccess` to `checkPermission` of src/core/context/lib/Context.js. The
-- `acl` has levels under users' ids, the old format, and a table `users` by e-mail; a user's id is
-- not the word "users". A string argument that is missing is the empty one. Events and the saving
-- to the index come after each change of the state.
pub mod Granted
pub mod Revoked
use canvas_server.Prelude.{
  ℕ, Bool, true, false, ◌||◌, ◌&&◌, not, Option, none, some, List, [], ◌∷◌, ◌⊎◌, inl, inr, String,
  ◌==◌, or_else, is_some, includes, leb, Dict, lookup, insert, remove, string_key, if◌then◌else◌,
}
use Prim.Native.String.{◌++◌}
use canvas_server.Access.Members.{either}

pub record Share : Type 0 where
  pub access_level : String
  pub user_id : String
  pub description : Option String
  pub granted_at : String
  pub granted_by : String
  pub updated_at : Option String
  pub updated_by : Option String

pub record ContextAcl : Type 0 where
  pub levels : Dict String
  pub users : Option (Dict Share)

-- The part of a context that sharing reads and changes.
pub record Context : Type 0 where
  pub user_id : String
  pub acl : ContextAcl
  pub updated_at : String

pub record ShareOptions : Type 0 where
  pub description : Option String
  pub granted_by : Option String
  pub updated_by : Option String

pub data ShareError : Type 0 where
  invalid_user invalid_level unknown_user no_share : ShareError

abbrev pub levels : List String
levels = "documentRead" ∷ "documentWrite" ∷ "documentReadWrite" ∷ []

abbrev pub text_or : Option String → String → String
text_or a b = or_else (either a (some b)) b

-- `this.#acl[id]` where it is truthy
abbrev pub level_of : String → Context → Option String
level_of id c = either (lookup id c.acl.levels) none

-- `acl.users`, with an empty table where there is none
abbrev pub shares : Context → Dict Share
shares c = or_else c.acl.users []

abbrev pub with_levels : Dict String → String → Context → Context
with_levels table now c = record c { acl = record (c.acl) { levels = table }; updated_at = now }

abbrev pub with_users : Dict Share → String → Context → Context
with_users table now c = record c { acl = record (c.acl) { users = some table }; updated_at = now }

-- `grantAccess`
unfoldable pub grant_access : String → String → String → Context → ShareError ⊎ Context
grant_access now user level c =
    if user == ""
    then inl invalid_user
    else if not (includes levels level)
    then inl invalid_level
    else if user == c.user_id
    then inr c
    else inr (with_levels (insert user level c.acl.levels) now c)

-- `revokeAccess`
unfoldable pub revoke_access : String → String → Context → ShareError ⊎ Context
revoke_access now user c =
    if user == ""
    then inl invalid_user
    else if user == c.user_id
    then inr c
    else if is_some (level_of user c)
    then inr (with_levels (remove user c.acl.levels) now c)
    else inr c

-- The share that `grantAccessByEmail` stores.
abbrev pub new_share : String → String → String → String → ShareOptions → Context → Share
new_share now email level user o c = record {
  access_level = level;
  user_id = user;
  description = some (text_or o.description ("Shared context access for " ++ email));
  granted_at = now;
  granted_by = text_or o.granted_by c.user_id;
  updated_at = none;
  updated_by = none;
}

-- The share that `updateAccessByEmail` stores.
abbrev pub updated_share : String → String → ShareOptions → Context → Share → Share
updated_share now level o c share = record share {
  access_level = level;
  description = elim o.description [ none ↦ share.description | some d ↦ some d ];
  updated_at = some now;
  updated_by = some (text_or o.updated_by c.user_id);
}

module _ (get_by_email : String → Option String) where
  -- `grantAccessByEmail`; the parameter gives the id of the user with an e-mail
  unfoldable pub grant_access_by_email :
      String → String → String → ShareOptions → Context → ShareError ⊎ Context
  grant_access_by_email now email level o c =
      if email == ""
      then inl invalid_user
      else if not (includes levels level)
      then inl invalid_level
      else elim (get_by_email email) [
        | none ↦ inl unknown_user
        | some user ↦
            if user == c.user_id
            then inr c
            else inr
                (with_users (insert email (new_share now email level user o c) (shares c)) now c)
      ]

-- `revokeAccessByEmail`
unfoldable pub revoke_access_by_email : String → String → Context → ShareError ⊎ Context
revoke_access_by_email now email c =
    if email == "" then inl invalid_user else elim (lookup email (shares c)) [
      | none ↦ inr c
      | some share ↦ inr (with_users (remove email (shares c)) now c)
    ]

-- `updateAccessByEmail`
unfoldable pub update_access_by_email :
    String → String → String → ShareOptions → Context → ShareError ⊎ Context
update_access_by_email now email level o c =
    if email == ""
    then inl invalid_user
    else if not (includes levels level)
    then inl invalid_level
    else elim (lookup email (shares c)) [
      | none ↦ inl no_share
      | some share ↦
          inr (with_users (insert email (updated_share now level o c share) (shares c)) now c)
    ]

-- `updateACL`
unfoldable pub update_acl : String → ContextAcl → Context → Context
update_acl now acl c = record c { acl = acl; updated_at = now }

-- The loop over the shares: the level of the first that has the user's id.
unfoldable pub share_level : String → Dict Share → Option String
share_level user [] = none
share_level user ((email, share) ∷ rest) =
    if share.user_id == user then some share.access_level else share_level user rest

-- `permissionHierarchy`
abbrev pub rank : String → Option ℕ
rank level =
    if level == "documentRead"
    then some 0
    else if level == "documentWrite"
    then some 1
    else if level == "documentReadWrite"
    then some 2
    else none

-- The comparison of ranks.
abbrev pub rank_suffices : Option ℕ → Option ℕ → Bool
rank_suffices none r = false
rank_suffices (some g) none = false
rank_suffices (some g) (some r) = leb r g

-- What a level that was found allows.
unfoldable pub permitted : String → String → Bool
permitted level required =
    if not (is_some (rank required)) || not (is_some (rank level))
    then false
    else if required == "documentWrite"
    then level == "documentWrite" || level == "documentReadWrite"
    else rank_suffices (rank level) (rank required)

-- The level granted to a user: of the old format, else of the shares.
unfoldable pub granted_level : String → Context → Option String
granted_level user c = elim (level_of user c) [
  | some level ↦ some level
  | none ↦ either (share_level user (shares c)) none
]

unfoldable pub check_permission : String → String → Context → Bool
check_permission user required c =
    if user == ""
    then false
    else if user == c.user_id
    then true
    else elim (granted_level user c) [ none ↦ false | some level ↦ permitted level required ]
