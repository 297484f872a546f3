-- ===== src/Workspaces/Sharing.antt =====
-- Members as the manager of src/core/workspace/index.js deals with them. `now` is the time stamp of a grant,
-- `at` the same time as a number.
pub mod Admitted
use canvas_server.Prelude.{
  ℕ, Bool, true, false, not, Option, none, some, List, [], ◌∷◌, String, Text, text_eq, or_else, ◌⊎◌,
  inl, inr, if◌then◌else◌, Casing, folded, lookup, insert, text_key,
}
use canvas_server.Access.Permissions.{read}
use canvas_server.Access.Resolve.{Acl, Principal}
use canvas_server.Access.Members.{Error, Kind, user, group, Member, Options, grant, revoke, list}
use canvas_server.Gate.Request.{Call, thrown, returned}
use canvas_server.Workspaces.Indexes.Defs.{Entry, Loaded, Manager, entry_at, set_entry}
use canvas_server.Workspaces.Guarded.{World, Failure, Outcome, failed, got, get_workspace_or_throw}

pub data Refusal : Type 0 where
  unavailable : Failure → Refusal
  not_owner remote_reference universe already_owner acl_unreadable : Refusal
  not_valid : Error → Refusal

-- The instance, if the user owns it: the guard that the member methods share.
abbrev pub owned : Text → Outcome → Refusal ⊎ Loaded
owned user_id (failed f) = inl (unavailable f)
owned user_id (got ws) = if text_eq ws.owner user_id then inr ws else inl not_owner

-- `ws.acl`, which the members read
abbrev pub acl_of : Loaded → Refusal ⊎ Option Acl
acl_of ws = elim ws.acl [ thrown ↦ inl acl_unreadable | returned acl ↦ inr acl ]

members_of : Casing → Refusal ⊎ Option Acl → Refusal ⊎ List Member
members_of u (inl x) = inl x
members_of u (inr acl) = inr (list u acl)

listed : Casing → Refusal ⊎ Loaded → Refusal ⊎ List Member
unfolding members_of
listed u (inl x) = inl x
listed u (inr ws) = members_of u (acl_of ws)

-- `listWorkspaceMembers`
unfoldable pub list_workspace_members :
    World → Text → Text → Manager → (Refusal ⊎ List Member) × Manager
unfolding listed
list_workspace_members w id user_id m =
    let r = get_workspace_or_throw w id user_id (some read) m in
    (listed w.casing (owned user_id r.0), r.1)

-- `#syncEntryAcl`
abbrev pub synced : Loaded → Option Acl → ℕ → Option Entry → Manager → Manager
synced ws acl at none m = m
synced ws acl at (some e) m = set_entry ws.owner ws.id (record e { acl = acl; updated_at = at }) m

unfoldable pub sync_entry_acl : Loaded → Option Acl → ℕ → Manager → Manager
sync_entry_acl ws acl at m = synced ws acl at (entry_at ws.owner ws.id m) m

-- The instance with the ACL that is written, and the index that mirrors it.
abbrev pub with_acl : Text → Loaded → Option Acl → ℕ → Manager → Manager
with_acl id ws acl at m =
    sync_entry_acl ws acl at
      (record m { loaded = insert id (record ws { acl = returned acl }) m.loaded })

-- `(await this.#principalFor(userId))?.email || ''`
abbrev pub email_of : Option Principal → Text
email_of none = []
email_of (some p) = or_else p.email []

-- The guards of `grantWorkspaceMember` on an instance that the user owns.
abbrev pub grant_guard : World → Text → Kind → Text → Loaded → Option Refusal
grant_guard w user_id kind principal ws =
    if ws.is_remote
    then some remote_reference
    else if ws.is_universe
    then some universe
    else elim kind [
      | group ↦ none
      | user ↦
          if text_eq (folded w.casing principal)
            (w.casing.lower (email_of (w.principal_for user_id)))
          then some already_owner
          else none
    ]

abbrev pub granted :
    Text → Loaded → ℕ → Manager → Error ⊎ (Member × Acl) → (Refusal ⊎ Member) × Manager
granted id ws at m (inl x) = (inl (not_valid x), m)
granted id ws at m (inr (member, acl)) = (inr member, with_acl id ws (some acl) at m)

abbrev pub grant_on :
    World
    → String
    → ℕ
    → Text
    → Kind
    → Text
    → Options
    → Loaded
    → Manager
    → Refusal ⊎ Option Acl
    → (Refusal ⊎ Member) × Manager
grant_on w now at id kind principal options ws m (inl x) = (inl x, m)
grant_on w now at id kind principal options ws m (inr acl) =
    granted id ws at m (grant w.casing now kind principal options acl)

abbrev pub grant_guarded :
    World
    → String
    → ℕ
    → Text
    → Kind
    → Text
    → Options
    → Loaded
    → Manager
    → Option Refusal
    → (Refusal ⊎ Member) × Manager
grant_guarded w now at id kind principal options ws m (some x) = (inl x, m)
grant_guarded w now at id kind principal options ws m none =
    grant_on w now at id kind principal options ws m (acl_of ws)

abbrev pub grant_owned :
    World
    → String
    → ℕ
    → Text
    → Text
    → Kind
    → Text
    → Options
    → Manager
    → Refusal ⊎ Loaded
    → (Refusal ⊎ Member) × Manager
grant_owned w now at id user_id kind principal options m (inl x) = (inl x, m)
grant_owned w now at id user_id kind principal options m (inr ws) =
    grant_guarded w now at id kind principal options ws m (grant_guard w user_id kind principal ws)

-- `{ ...options, grantedBy: userId }`
abbrev pub granted_as : Text → Options → Options
granted_as user_id options = record options { granted_by = some user_id }

-- `grantWorkspaceMember`
unfoldable pub grant_workspace_member :
    World
    → String
    → ℕ
    → Text
    → Text
    → Kind
    → Text
    → Options
    → Manager
    → (Refusal ⊎ Member) × Manager
grant_workspace_member w now at id user_id kind principal options m =
    let r = get_workspace_or_throw w id user_id (some read) m in
    grant_owned w now at id user_id kind principal (granted_as user_id options) r.1
      (owned user_id r.0)

abbrev pub revoked : Text → Loaded → ℕ → Manager → Option Acl × Bool → (Refusal ⊎ Bool) × Manager
revoked id ws at m (acl, true) = (inr true, with_acl id ws acl at m)
revoked id ws at m (acl, false) = (inr false, m)

revoke_on :
    World
    → ℕ
    → Text
    → Kind
    → Text
    → Loaded
    → Manager
    → Refusal ⊎ Option Acl
    → (Refusal ⊎ Bool) × Manager
revoke_on w at id kind principal ws m (inl x) = (inl x, m)
revoke_on w at id kind principal ws m (inr acl) =
    revoked id ws at m (revoke w.casing kind principal acl)

revoke_owned :
    World → ℕ → Text → Kind → Text → Manager → Refusal ⊎ Loaded → (Refusal ⊎ Bool) × Manager
unfolding revoke_on
revoke_owned w at id kind principal m (inl x) = (inl x, m)
revoke_owned w at id kind principal m (inr ws) = revoke_on w at id kind principal ws m (acl_of ws)

-- `revokeWorkspaceMember`
unfoldable pub revoke_workspace_member :
    World → ℕ → Text → Text → Kind → Text → Manager → (Refusal ⊎ Bool) × Manager
unfolding revoke_owned
revoke_workspace_member w at id user_id kind principal m =
    let r = get_workspace_or_throw w id user_id (some read) m in
    revoke_owned w at id kind principal r.1 (owned user_id r.0)
