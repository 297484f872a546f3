-- ===== src/Context/Sharing/Revoked.antt =====
-- What is left after access is revoked: src/core/context/lib/Context.js.
use mathlib.Core.Path.{subst}
use canvas_server.Prelude.{
  ◌≡◌, refl, sym, ap, ◌∙◌, inl, inr, false, none, some, [], ◌∷◌, String, ◌==◌, eq_iff, Dict, lookup,
  remove, same, string_key, lookup-remove, if◌then◌else◌, Bool-cases, Option-cases, none-ne-some,
  inr-inj,
}
use canvas_server.Access.Members.{either}
use canvas_server.Context.Sharing.{
  Share, Context, invalid_user, level_of, shares, with_levels, with_users, revoke_access,
  revoke_access_by_email, share_level, granted_level, check_permission,
}
use canvas_server.Context.Sharing.Granted.{no_level, check_permission-guest, check_permission-other}

granted_level_of_shares :
    (user : String) (c : Context)
    → level_of user c ≡ none
    → share_level user (shares c) ≡ none
    → granted_level user c ≡ none
unfolding granted_level
granted_level_of_shares user c h k = rw (h, k, granted_level)

remove_absent : (k : String) (m : Dict Share) → lookup k m ≡ none → remove k m ≡ m
unfolding lookup remove
remove_absent k [] h = refl
remove_absent k ((j, v) ∷ m) h = elim (Bool-cases (same j k)) [
  | inl here ↦ absurd (none-ne-some (sym (rw here at h)))
  | inr there ↦ rw there (ap (λ x. (j, v) ∷ x) (remove_absent k m (rw there at h)))
]

-- Once a share by e-mail is revoked, the user behind it has no permission at all, unless he is the
-- owner, is granted a level in the old format, or has a share left under another e-mail.
pub check_permission-revoke_access_by_email :
    (now email user required : String) (c c' : Context)
    → revoke_access_by_email now email c ≡ inr c'
    → user == "" ≡ false
    → user == c.user_id ≡ false
    → level_of user c ≡ none
    → share_level user (remove email (shares c)) ≡ none
    → check_permission user required c' ≡ false
unfolding revoke_access_by_email
check_permission-revoke_access_by_email now email user required c c' h named guest level left =
    elim (Bool-cases (email == "")) [
      | inl blank ↦ absurd (no_level invalid_user c' (rw (blank, revoke_access_by_email) at h))
      | inr given ↦ elim (Option-cases (lookup email (shares c))) [
        | inl nothing ↦
            subst (λ x. check_permission user required x ≡ false)
              (inr-inj (rw (given, nothing, revoke_access_by_email) at h))
              (check_permission-guest user required c none named guest (
                granted_level_of_shares user c level
                  (ap (share_level user) (sym (remove_absent email (shares c) nothing)) ∙ left)))
        | inr (share, there) ↦
            subst (λ x. check_permission user required x ≡ false)
              (inr-inj (rw (given, there, revoke_access_by_email) at h))
              (check_permission-guest user required (with_users (remove email (shares c)) now c)
                none named guest
                (granted_level_of_shares user (with_users (remove email (shares c)) now c) level
                  left))
      ]
    ]

level_of-remove :
    (user j now : String) (c : Context)
    → level_of j (with_levels (remove user c.acl.levels) now c)
      ≡ (if same user j then none else level_of j c)
level_of-remove user j now c =
    rw (lookup-remove user j c.acl.levels)
      (elim (Bool-cases (same user j)) [ inl here ↦ rw here | inr there ↦ rw there ])

granted_level-remove :
    (user j now : String) (c : Context)
    → granted_level j (with_levels (remove user c.acl.levels) now c)
      ≡ (if same user j then either (share_level j (shares c)) none else granted_level j c)
unfolding granted_level
granted_level-remove user j now c =
    ap (λ o. elim o [ some l ↦ some l | none ↦ either (share_level j (shares c)) none ])
      (level_of-remove user j now c)
    ∙ (elim (Bool-cases (same user j)) [ inl here ↦ rw here | inr there ↦ rw there ])

-- Once access is revoked from a user who is not the owner and has no share by e-mail, that user has
-- no permission, and all others have what they had.
pub check_permission-revoke_access :
    (now user : String) (c c' : Context) (other required : String)
    → revoke_access now user c ≡ inr c'
    → user == c.user_id ≡ false
    → share_level user (shares c) ≡ none
    → check_permission other required c'
      ≡ (if user == other then false else check_permission other required c)
unfolding revoke_access
check_permission-revoke_access now user c c' other required h guest alone =
    elim (Bool-cases (user == "")) [
      | inl blank ↦ absurd (no_level invalid_user c' (rw (blank, revoke_access) at h))
      | inr named ↦ elim (Option-cases (level_of user c)) [
        | inl nothing ↦
            subst
              (λ x.
                check_permission other required x
                ≡ (if user == other then false else check_permission other required c))
              (inr-inj (rw (named, guest, nothing, revoke_access) at h))
              (elim (Bool-cases (user == other)) [
                | inl here ↦
                    let e : user ≡ other = (eq_iff user other).0 here in
                    rw here (
                      subst (λ x. check_permission x required c ≡ false) e
                        (check_permission-guest user required c none named guest
                          (granted_level_of_shares user c nothing alone)))
                | inr there ↦ rw there
              ])
        | inr (level, there) ↦
            let made : Context = with_levels (remove user c.acl.levels) now c in
            let view = granted_level-remove user other now c in
            subst
              (λ x.
                check_permission other required x
                ≡ (if user == other then false else check_permission other required c))
              (inr-inj (rw (named, guest, there, revoke_access) at h))
              (elim (Bool-cases (user == other)) [
                | inl here ↦
                    let e : user ≡ other = (eq_iff user other).0 here in
                    rw here (
                      check_permission-guest other required made none
                        (subst (λ x. x == "" ≡ false) e named)
                        (subst (λ x. x == c.user_id ≡ false) e guest)
                        ((rw here at view)
                          ∙ ap (λ o. either o none)
                              (subst (λ x. share_level x (shares c) ≡ none) e alone)))
                | inr other_user ↦
                    rw other_user
                      (check_permission-other other required c made refl (rw other_user at view))
              ])
      ]
    ]
