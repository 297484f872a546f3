-- ===== src/Access/Tests.antt =====
-- Shares, grants and tokens of src/core/workspace/lib at concrete states.
use mathlib.Core.List.{Memᴰ}
use canvas_server.Prelude.{
  ◌≡◌, ◌≢◌, refl, inr, true, if◌then◌else◌, Option, none, some, [], ◌∷◌, String, ◌==◌, Text,
  text_eq, codes, ascii_casing, folded, insert, text_key,
}
use canvas_server.Access.Permissions.{
  read, write, admin, word, Spec, single, several, holds, parsed, entries, normalize_permissions,
}
use canvas_server.Access.Permissions.Canonical.{normalize_permissions-canonical, stored}
use canvas_server.Access.Groups.{group_matches, group_aliases, first_rdn, until_comma}
use canvas_server.Access.Resolve.{
  Grant, Acl, Principal, Via, Access, by_user, normalize_email, resolve_acl_access, user_access,
  group_access, better,
}
use canvas_server.Access.Resolve.Sound.{IsEntry, Justified, table_of, resolve_acl_access-Justified}
use canvas_server.Access.Resolve.Widest.{resolve_acl_access-covers}
use canvas_server.Access.Members.{
  user, Member, Options, missing, found, get, grant, new_grant, entry_of, revoke,
}
use canvas_server.Access.Members.Laws.{IsWellFormed, entry, grant-entry}
use canvas_server.Access.Tokens.{TokenOptions, create, verify, token_key, has_expired}
use canvas_server.Access.Tokens.Verify.{verify-create}
use canvas_server.Access.Members.Reads.{get-grant, get-revoke, resolve_acl_access-grant}

abbrev asked : Spec
asked = several (some (codes " Write") ∷ none ∷ some (codes "own") ∷ [])

normalize_permissions-canonical_example : normalize_permissions ascii_casing asked ≡ (
    if holds (parsed ascii_casing (entries asked)) admin
    then read ∷ write ∷ admin ∷ []
    else if holds (parsed ascii_casing (entries asked)) write
    then read ∷ write ∷ []
    else if holds (parsed ascii_casing (entries asked)) read
    then read ∷ []
    else [])
normalize_permissions-canonical_example = normalize_permissions-canonical ascii_casing asked

abbrev grant_of : Spec → Grant
grant_of spec = record {
  permissions = spec;
  description = none;
  granted_at = none;
  granted_by = none;
  updated_at = none;
  updated_by = none;
}

abbrev shared : Acl
shared = record {
  tokens = none;
  users = some ((codes "a@b.c", some (grant_of (single (some (word read))))) ∷ []);
  groups = some (
      (codes "team", some (grant_of (single (some (word read)))))
      ∷ (codes "cn=ops,dc=x", some (grant_of (single (some (word write)))))
      ∷ []);
}

abbrev jane : Principal
jane = record {
  email = some (codes "J@x.y");
  groups = some (some (codes "team") ∷ some (codes "OPS") ∷ []);
}

abbrev by_ops : Access
by_ops = record {
  permissions = read ∷ write ∷ [];
  via = Via.group;
  principal = codes "cn=ops,dc=x";
  grant = grant_of (single (some (word write)));
}

resolve_acl_access-Justified_example :
    IsEntry ascii_casing (table_of ascii_casing shared Via.group) by_ops
    × Justified ascii_casing jane Via.group (codes "cn=ops,dc=x")
unfolding resolve_acl_access normalize_email user_access group_access group_matches group_aliases
    first_rdn until_comma better normalize_permissions parsed
resolve_acl_access-Justified_example =
    resolve_acl_access-Justified ascii_casing shared jane by_ops refl

resolve_acl_access-covers_example :
    (r : Access) × (resolve_acl_access ascii_casing (some shared) (some jane) ≡ some r)
    × (holds r.permissions write ≡ true)
unfolding by_user normalize_email user_access group_matches group_aliases first_rdn until_comma
    normalize_permissions parsed
resolve_acl_access-covers_example =
    resolve_acl_access-covers ascii_casing shared jane (codes "cn=ops,dc=x")
      (grant_of (single (some (word write)))) write refl (Memᴰ.tail (Memᴰ.head refl)) refl refl

abbrev options : Options
options = record { permissions = some asked; description = none; granted_by = some (codes "u1") }

abbrev empty : Option Acl
empty = none

abbrev grant_made : Grant
grant_made = record {
  permissions = stored ascii_casing (read ∷ write ∷ []);
  description = some "";
  granted_at = some "now";
  granted_by = some (codes "u1");
  updated_at = some "now";
  updated_by = none;
}

abbrev made : Member
made = record {
  kind = user;
  principal = codes "a@b.c";
  permissions = read ∷ write ∷ [];
  grant = grant_made;
}

abbrev acl_made : Acl
acl_made = record {
  tokens = some [];
  users = some ((codes "a@b.c", some grant_made) ∷ []);
  groups = some [];
}

grant_run : grant ascii_casing "now" user (codes " A@b.c") options empty ≡ inr (made, acl_made)
unfolding grant normalize_permissions parsed new_grant insert entry_of
grant_run = refl

grant-entry_example :
    IsWellFormed ascii_casing user (some acl_made)
    × ((w : Text)
        → entry ascii_casing user w (some acl_made) ≡ (
            if text_eq (folded ascii_casing (codes " A@b.c")) w
            then some (codes "a@b.c", some grant_made)
            else entry ascii_casing user w empty))
    × (made.permissions ≡ normalize_permissions ascii_casing asked)
    × (made.permissions ≢ [])
grant-entry_example =
    grant-entry ascii_casing "now" user (codes " A@b.c") options empty made acl_made tt grant_run

get-grant_example : get ascii_casing user (codes "a@B.c ") (some acl_made) ≡ (
    if text_eq (folded ascii_casing (codes " A@b.c")) (folded ascii_casing (codes "a@B.c "))
    then found made
    else get ascii_casing user (codes "a@B.c ") empty)
get-grant_example =
    get-grant ascii_casing "now" user (codes " A@b.c") (codes "a@B.c ") options empty made acl_made
      tt grant_run

resolve_acl_access-grant_example :
    (r : Access) × (resolve_acl_access ascii_casing
        (some acl_made)
        (some (record { email = some (codes "A@B.C"); groups = none }))
      ≡ some r)
    × (r.permissions ≡ normalize_permissions ascii_casing asked)
    × (r.via ≡ Via.user)
resolve_acl_access-grant_example =
    resolve_acl_access-grant ascii_casing "now" (codes " A@b.c") (codes "A@B.C") options empty made
      acl_made none tt grant_run refl

get-revoke_example :
    IsWellFormed ascii_casing user (revoke ascii_casing user (codes "A@b.c") (some acl_made)).0
    × (get ascii_casing user
          (codes "a@b.C")
          (revoke ascii_casing user (codes "A@b.c") (some acl_made)).0
        ≡ (if text_eq (folded ascii_casing (codes "A@b.c")) (folded ascii_casing (codes "a@b.C"))
            then missing
            else get ascii_casing user (codes "a@b.C") (some acl_made)))
get-revoke_example =
    get-revoke ascii_casing user (codes "A@b.c") (codes "a@b.C") (some acl_made) (tt, tt)

abbrev digest : String → String
digest s = s

abbrev token_options : TokenOptions
token_options = record { name = none; description = none; permissions = none; expires_at = some 90 }

verify-create_example :
    let made = create digest "id" "beef" 10 token_options empty in
    verify digest 50 "canvas-workspace-beef" (some made.1) ≡ (
      if "canvas-workspace-beef" == ""
      then none
      else if made.0.2 == token_key digest "canvas-workspace-beef"
      then (if has_expired 50 made.0.0.expires_at then none else some made.0.0)
      else verify digest 50 "canvas-workspace-beef" empty)
verify-create_example =
    verify-create digest "id" "beef" 10 50 token_options empty "canvas-workspace-beef"
