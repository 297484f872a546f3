-- ===== src/Context/Sharing/Granted.antt =====
-- What a grant of access permits: src/core/context/lib/Context.js.
use mathlib.Core.Path.{subst}
use canvas_server.Prelude.{
  ◌≡◌, ◌≢◌, refl, ap, ◌∙◌, inl, inr, true, false, not, ◌&&◌, Option, none, some, arith, String,
  ◌==◌, eq_iff, includes, Dict, lookup, insert, same, string_key, lookup-insert, if◌then◌else◌,
  Bool-cases, inr-inj,
}
use canvas_server.Access.Members.{either}
use canvas_server.Context.Sharing.{
  Context, ShareError, invalid_user, invalid_level, levels, shares, with_levels, grant_access,
  share_level, permitted, granted_level, check_permission,
}

unknown_blank : includes levels "" ≢ true
unknown_blank h = cc

-- A level that is granted is not the empty string.
known_level :
    (level : String) → includes levels level ≡ true → either (some level) none ≡ some level
known_level level h = elim (Bool-cases (level == "")) [
  | inl blank ↦
      absurd (unknown_blank (subst (λ l. includes levels l ≡ true) ((eq_iff level "").0 blank) h))
  | inr filled ↦ rw (filled, either)
]

pub no_level : (e : ShareError) (c' : Context) → inl e ≢ inr c'
no_level e c' h = cc

level_of-insert :
    (user j level : String) (c : Context) (table : Dict String)
    → includes levels level ≡ true
    → either (lookup j (insert user level table)) none
      ≡ (if same user j then some level else either (lookup j table) none)
level_of-insert user j level c table h =
    rw (lookup-insert user j level table) (elim (Bool-cases (same user j)) [
      | inl here ↦ rw here (known_level level h)
      | inr there ↦ rw there
    ])

granted_level-insert :
    (now user j level : String) (c : Context)
    → includes levels level ≡ true
    → granted_level j (with_levels (insert user level c.acl.levels) now c)
      ≡ (if same user j then some level else granted_level j c)
unfolding granted_level
granted_level-insert now user j level c h =
    ap (λ o. elim o [ some l ↦ some l | none ↦ either (share_level j (shares c)) none ])
      (level_of-insert user j level c c.acl.levels h)
    ∙ (elim (Bool-cases (same user j)) [ inl here ↦ rw here | inr there ↦ rw there ])

-- What a granted level decides, but for the owner.
pub check_permission-guest :
    (user required : String) (c : Context) (o : Option String)
    → user == "" ≡ false
    → user == c.user_id ≡ false
    → granted_level user c ≡ o
    → check_permission user required c
      ≡ (elim o [ none ↦ false | some level ↦ permitted level required ])
unfolding check_permission
check_permission-guest user required c o named guest h = rw (named, guest, h)

pub check_permission-other :
    (user required : String) (c c' : Context)
    → c'.user_id ≡ c.user_id
    → granted_level user c' ≡ granted_level user c
    → check_permission user required c' ≡ check_permission user required c
unfolding check_permission
check_permission-other user required c c' owner h = rw (h, owner)

-- Once a level is granted to a user other than the owner, that user has what the level permits,
-- whatever was shared with him before, and all others have what they had.
pub check_permission-grant_access :
    (now user level : String) (c c' : Context) (other required : String)
    → grant_access now user level c ≡ inr c'
    → check_permission other required c' ≡ (
        if user == other && not (user == c.user_id)
        then permitted level required
        else check_permission other required c)
unfolding grant_access
check_permission-grant_access now user level c c' other required h =
    elim (Bool-cases (user == "")) [
      | inl blank ↦ absurd (no_level invalid_user c' (rw (blank, grant_access) at h))
      | inr named ↦ elim (Bool-cases (includes levels level)) [
        | inr unknown ↦ absurd (no_level invalid_level c' (rw (named, unknown, grant_access) at h))
        | inl known ↦ elim (Bool-cases (user == c.user_id)) [
          | inl owner ↦
              let e : c ≡ c' = inr-inj (rw (named, known, owner, grant_access) at h) in
              subst
                (λ x. check_permission other required x ≡ (
                  if user == other && not (user == c.user_id)
                  then permitted level required
                  else check_permission other required c))
                e (ground arith)
          | inr guest ↦
              let made : Context = with_levels (insert user level c.acl.levels) now c in
              let e : made ≡ c' = inr-inj (rw (named, known, guest, grant_access) at h) in
              let view = granted_level-insert now user other level c known in
              subst
                (λ x. check_permission other required x ≡ (
                  if user == other && not (user == c.user_id)
                  then permitted level required
                  else check_permission other required c))
                e
                (elim (Bool-cases (user == other)) [
                  | inl here ↦
                      let e' : user ≡ other = (eq_iff user other).0 here in
                      rw (here, guest)
                        (check_permission-guest other required made (some level)
                          (subst (λ x. x == "" ≡ false) e' named)
                          (subst (λ x. x == c.user_id ≡ false) e' guest) (rw here at view))
                  | inr there ↦
                      rw there
                        (check_permission-other other required c made refl (rw there at view))
                ])
        ]
      ]
    ]

-- Permissions are ordered: who may read and write a context may read it, and may write it.
pub permitted-weaker :
    (level : String)
    → permitted level "documentReadWrite" ≡ true
    → (permitted level "documentRead" ≡ true) × (permitted level "documentWrite" ≡ true)
unfolding permitted
permitted-weaker level h = ground arith
