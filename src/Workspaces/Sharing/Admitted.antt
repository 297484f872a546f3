-- ===== src/Workspaces/Sharing/Admitted.antt =====
-- What a member who is granted access in src/core/workspace/index.js may do.
use canvas_server.Prelude.{
  ◌≡◌, ◌≢◌, ◌⊎◌, refl, inl, inr, false, Option, none, some, List, [], arith, Text, text_eq_iff,
  String, lookup, insert, lookup-insert, text_key, inr-inj, inl-ne-inr, sym, ◌∙◌, ap, ℕ, folded,
}
use canvas_server.Access.Permissions.{read, normalize_permissions}
use canvas_server.Access.Resolve.{Acl, Access, Principal, resolve_acl_access}
use canvas_server.Access.Members.{Kind, Error, user, Member, Options, requested, grant}
use canvas_server.Access.Members.Laws.{IsWellFormed}
use canvas_server.Access.Members.Reads.{resolve_acl_access-grant}
use canvas_server.Gate.Request.{returned}
use canvas_server.Workspaces.Indexes.Defs.{Entry, Loaded, Manager, is_remote, entry_at, set_entry}
use canvas_server.Workspaces.Indexes.Consistent.{Has, IsConsistent}
use canvas_server.Workspaces.Indexes.Edited.{edited, edited-new, IsConsistent-edited}
use canvas_server.Workspaces.Guarded.{
  World, Rights, got, guarded, get_cached, get_workspace_or_throw, acl_for, share_of,
  rights_of_share, shared_rights, resolve_workspace_access,
}
use canvas_server.Workspaces.Guarded.Checked.{share, resolve_workspace_access-shared}
use canvas_server.Workspaces.Registry.Moves.{IsConsistent-beside}
use canvas_server.Workspaces.Sharing.{
  Refusal, owned, granted_as, sync_entry_acl, with_acl, grant_guard, granted, grant_on,
  grant_guarded, grant_workspace_member,
}

-- An instance in memory whose owner asks is got without a check.
own_instance :
    (w : World) (id : Text) (ws : Loaded) (m : Manager)
    → lookup id m.loaded ≡ some ws
    → get_workspace_or_throw w id ws.owner (some read) m ≡ (got ws, m)
unfolding get_workspace_or_throw get_cached guarded
own_instance w id ws m warm =
    rw (warm, get_workspace_or_throw) (ground (arith, text_eq_iff ws.owner ws.owner))

-- A grant that succeeds has written what the members' `grant` returns.
granted-inr :
    (id : Text) (ws : Loaded) (at : ℕ) (m k : Manager) (member : Member)
    (o : Error ⊎ (Member × Acl))
    → granted id ws at m o ≡ (inr member, k)
    → (acl : Acl) × (o ≡ inr (member, acl)) × (k ≡ with_acl id ws (some acl) at m)
granted-inr id ws at m k member (inl x) h = absurd (inl-ne-inr (ap (λ r. r.0) h))
granted-inr id ws at m k member (inr (n, acl)) h =
    (acl, ap (λ x. inr (x, acl)) (inr-inj (ap (λ r. r.0) h)), sym (ap (λ r. r.1) h))

grant_guarded-inr :
    (w : World) (now : String) (at : ℕ) (id : Text) (kind : Kind) (principal : Text)
    (options : Options) (ws : Loaded) (store : Option Acl) (m k : Manager) (member : Member)
    (o : Option Refusal)
    → ws.acl ≡ returned store
    → grant_guarded w now at id kind principal options ws m o ≡ (inr member, k)
    → (acl : Acl) × (grant w.casing now kind principal options store ≡ inr (member, acl))
      × (k ≡ with_acl id ws (some acl) at m)
grant_guarded-inr w now at id kind principal options ws store m k member (some x) reads h =
    absurd (inl-ne-inr (ap (λ r. r.0) h))
grant_guarded-inr w now at id kind principal options ws store m k member none reads h =
    granted-inr id ws at m k member (grant w.casing now kind principal options store)
      (rw (reads, grant_on) at h)

module _ (w : World) (ws : Loaded) (e : Entry) (m : Manager) (c : IsConsistent m)
    (h : Has ws.owner ws.id e m) (acl : Acl) (at : ℕ) where
  abbrev written : Loaded
  written = record ws { acl = returned (some acl) }

  abbrev in_memory : Manager
  in_memory = record m { loaded = insert ws.id written m.loaded }

  in_memory-IsConsistent : IsConsistent in_memory
  in_memory-IsConsistent =
      IsConsistent-beside m m.remote_indexes m.remote_refs (insert ws.id written m.loaded) c

  in_memory-Has : Has ws.owner ws.id e in_memory
  unfolding entry_at
  in_memory-Has = h

  with_acl-edited :
      with_acl ws.id ws (some acl) at m
      ≡ set_entry ws.owner ws.id (edited e (some acl) at) in_memory
  unfolding sync_entry_acl
  with_acl-edited = rw (in_memory-Has, sync_entry_acl) refl

  -- The ACL that counts for the entry afterwards is the one that was written.
  acl_for-written :
      ws.is_remote ≡ false
      → acl_for w
          (edited e (some acl) at)
          (set_entry ws.owner ws.id (edited e (some acl) at) in_memory)
        ≡ some acl
  unfolding acl_for set_entry
  acl_for-written near =
      let there : lookup e.id (insert ws.id written m.loaded) ≡ some written =
        ap (λ i. lookup i (insert ws.id written m.loaded)) (c.proper ws.owner ws.id e h).keyed
        ∙ lookup-insert ws.id ws.id written m.loaded
        ∙ rw ((text_eq_iff ws.id ws.id).1 refl) refl in
      rw (there, acl_for) (rw near refl)

  -- Who has a share by the ACL that was written has its rights.
  written-admits :
      (other : Text) (p : Principal) (r : Access)
      → is_remote e ≡ false
      → ws.is_remote ≡ false
      → other ≢ []
      → ws.owner ≢ other
      → w.principal_for other ≡ some p
      → resolve_acl_access w.casing (some acl) (some p) ≡ some r
      → (resolve_workspace_access w ws.id other (with_acl ws.id ws (some acl) at m)).0
        ≡ some (shared_rights (edited e (some acl) at) r)
  written-admits other p r near_entry near filled foreign who found =
      let e' = edited e (some acl) at in
      let m' = set_entry ws.owner ws.id e' in_memory in
      let shares : share w e' other m' ≡ some r =
        rw near_entry
          (ap (λ a. share_of w a (w.principal_for other)) (acl_for-written near) ∙ rw who found) in
      ap (λ k. (resolve_workspace_access w ws.id other k).0) with_acl-edited
      ∙ ap (λ x. x.0)
          (resolve_workspace_access-shared w m'
            (IsConsistent-edited in_memory in_memory-IsConsistent ws.owner ws.id e in_memory-Has
              (some acl) at)
            ws.owner ws.id other e'
            (edited-new in_memory in_memory-IsConsistent ws.owner ws.id e in_memory-Has (some acl)
              at)
            filled foreign)
      ∙ ap (rights_of_share e') shares

-- Sharing a workspace works end to end. If its owner grants access to an e-mail and that succeeds,
-- on consistent indexes, with the local workspace in memory and an ACL in which no two users' keys
-- differ only by case or outer space, then another user whose e-mail is any spelling of the same
-- one has from then on the permissions of the grant.
pub grant_workspace_member-admits :
    (w : World) (now : String) (at : ℕ) (ws : Loaded) (e : Entry) (principal q : Text)
    (options : Options) (store : Option Acl) (groups : Option (List (Option Text))) (m k : Manager)
    (member : Member) (other : Text)
    → IsConsistent m
    → lookup ws.id m.loaded ≡ some ws
    → Has ws.owner ws.id e m
    → is_remote e ≡ false
    → ws.is_remote ≡ false
    → ws.acl ≡ returned store
    → IsWellFormed w.casing user store
    → other ≢ []
    → ws.owner ≢ other
    → w.principal_for other ≡ some (record { email = some q; groups = groups })
    → folded w.casing q ≡ folded w.casing principal
    → grant_workspace_member w now at ws.id ws.owner user principal options m ≡ (inr member, k)
    → (r : Rights) × ((resolve_workspace_access w ws.id other k).0 ≡ some r)
      × (r.permissions ≡ normalize_permissions w.casing (requested options.permissions))
unfolding grant_workspace_member
grant_workspace_member-admits w now at ws e principal q options store groups m k member other c warm
      h near_entry near reads wf filled foreign who same success =
    let mine : owned ws.owner (got ws) ≡ inr ws =
      rw ((text_eq_iff ws.owner ws.owner).1 refl) refl in
    let step = rw (own_instance w ws.id ws m warm, mine) at success in
    let (acl, wrote, is) =
      grant_guarded-inr w now at ws.id user principal (granted_as ws.owner options) ws store m k
        member (grant_guard w ws.owner user principal ws) reads step in
    let (r, found, permissions, via) =
      resolve_acl_access-grant w.casing now principal q (granted_as ws.owner options) store member
        acl groups wf wrote same in
    (
      shared_rights (edited e (some acl) at) r,
      ap (λ k. (resolve_workspace_access w ws.id other k).0) is
          ∙ written-admits w ws e m c h acl at other _ r near_entry near filled foreign who found,
      permissions,
    )
