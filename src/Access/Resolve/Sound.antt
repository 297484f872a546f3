-- ===== src/Access/Resolve/Sound.antt =====
-- Where an access that `resolveAclAccess` of src/core/workspace/lib/access.js returns comes from.
use mathlib.Core.List.{Memᴰ}
use mathlib.Core.Path.{subst}
use canvas_server.Prelude.{
  ◌≡◌, ◌≢◌, refl, sym, ap, ◌∙◌, some-inj, inl, inr, true, Option, none, some, List, [], ◌∷◌, Text,
  text_eq, text_eq_iff, or_else, any, Casing, Bool-cases, Option-cases,
}
use canvas_server.Access.Permissions.{normalize_permissions}
use canvas_server.Access.Groups.{group_matches}
use canvas_server.Access.Resolve.{
  Grant, Grants, Acl, Principal, Via, user, group, Access, access_of, wider, normalize_email,
  user_access, better, group_access, by_user, by_group, resolve_acl_access,
}

module _ (u : Casing) where
  -- The access `r` is the entry of the table for one of the principal's names.
  pub record IsEntry (table : Grants) (r : Access) : Type 0 where
    pub listed : Memᴰ (r.principal, some r.grant) table
    pub permissions : r.permissions ≡ normalize_permissions u r.grant.permissions

  -- Why the principal has the access.
  abbrev pub Justified : Principal → Via → Text → Type 0
  Justified p user key =
      (normalize_email u (some key) ≡ normalize_email u p.email) × (normalize_email u p.email ≢ [])
  Justified p group key = any (λ g. group_matches u (some key) g) (or_else p.groups []) ≡ true

  abbrev pub table_of : Acl → Via → Grants
  table_of acl user = or_else acl.users []
  table_of acl group = or_else acl.groups []

  user_access-IsEntry :
      (email : Text) (table : Grants) (r : Access)
      → user_access u email table ≡ some r
      → IsEntry table r × (r.via ≡ user) × (normalize_email u (some r.principal) ≡ email)
  unfolding user_access
  user_access-IsEntry email [] r e = cc
  user_access-IsEntry email ((key, none) ∷ rest) r e =
      let (entry, via, same) = user_access-IsEntry email rest r e in
      (record { listed = Memᴰ.tail entry.listed; permissions = entry.permissions }, via, same)
  user_access-IsEntry email ((key, some grant) ∷ rest) r e =
      elim (Bool-cases (text_eq (normalize_email u (some key)) email)) [
        | inl same ↦
            subst
              (λ r'.
                IsEntry ((key, some grant) ∷ rest) r'
                × (r'.via ≡ user)
                × (normalize_email u (some r'.principal) ≡ email))
              (some-inj (rw (same, user_access) at e))
              (
                record { listed = Memᴰ.head refl; permissions = refl },
                refl,
                (text_eq_iff _ email).0 same,
              )
        | inr other ↦
            let (entry, via, name) =
              user_access-IsEntry email rest r (rw (other, user_access) at e) in
            (record { listed = Memᴰ.tail entry.listed; permissions = entry.permissions }, via, name)
      ]

  -- An entry of the table of groups that one of the groups matches.
  abbrev FromGroup : List (Option Text) → Grants → Access → Type 0
  FromGroup groups table r =
      IsEntry table r
      × (r.via ≡ group)
      × (any (λ g. group_matches u (some r.principal) g) groups ≡ true)

  abbrev BestOf : (Access → Type 0) → Option Access → Type 0
  BestOf P none = Unit
  BestOf P (some r) = P r

  better-BestOf :
      (P : Access → Type 0) (key : Text) (grant : Grant) (best : Option Access)
      → P (access_of u group key grant)
      → BestOf P best
      → BestOf P (better u key grant best)
  unfolding better
  better-BestOf P key grant best new old =
      elim (Bool-cases (wider (normalize_permissions u grant.permissions) best)) [
        | inl more ↦ rw more new
        | inr less ↦ rw less old
      ]

  group_access-BestOf :
      (groups : List (Option Text)) (table rest : Grants) (best : Option Access)
      → ((x : Text × Option Grant) → Memᴰ x rest → Memᴰ x table)
      → BestOf (FromGroup groups table) best
      → BestOf (FromGroup groups table) (group_access u groups rest best)
  unfolding group_access
  group_access-BestOf groups table [] best inside h = h
  group_access-BestOf groups table ((key, none) ∷ rest) best inside h =
      group_access-BestOf groups table rest best (λ x m. inside x (Memᴰ.tail m)) h
  group_access-BestOf groups table ((key, some grant) ∷ rest) best inside h =
      group_access-BestOf groups table rest _ (λ x m. inside x (Memᴰ.tail m))
        (elim (Bool-cases (any (λ g. group_matches u (some key) g) groups)) [
          | inl hit ↦ rw hit (
              better-BestOf (FromGroup groups table) key grant best
                (record { listed = inside _ (Memᴰ.head refl); permissions = refl }, refl, hit) h)
          | inr miss ↦ rw miss h
        ])

  BestOf-some :
      (P : Access → Type 0) (o : Option Access) (r : Access) → BestOf P o → o ≡ some r → P r
  BestOf-some P o r h e = subst (BestOf P) e h

  by_user-IsEntry :
      (email : Text) (users : Option Grants) (r : Access)
      → by_user u email users ≡ some r
      → IsEntry (or_else users []) r
        × (r.via ≡ user)
        × (normalize_email u (some r.principal) ≡ email)
        × (email ≢ [])
  unfolding by_user
  by_user-IsEntry [] users r e = cc
  by_user-IsEntry (c ∷ email) none r e = cc
  by_user-IsEntry (c ∷ email) (some users) r e =
      let (entry, via, name) = user_access-IsEntry (c ∷ email) users r e in
      (entry, via, name, λ p. cc)

  by_group-FromGroup :
      (gs : List (Option Text)) (groups : Option Grants) (r : Access)
      → by_group u gs groups ≡ some r
      → FromGroup gs (or_else groups []) r
  unfolding by_group
  by_group-FromGroup [] groups r e = cc
  by_group-FromGroup (g ∷ gs) none r e = cc
  by_group-FromGroup (g ∷ gs) (some groups) r e =
      BestOf-some (FromGroup (g ∷ gs) groups) _ r
        (group_access-BestOf (g ∷ gs) groups groups none (λ x m. m) tt) e

-- An access that is resolved is an entry of the ACL with the normal form of its permissions: of the
-- users, then the entry's e-mail is the principal's, which is not blank; or of the groups, then one
-- of the principal's groups is the entry's group.
pub resolve_acl_access-Justified :
    (u : Casing) (acl : Acl) (p : Principal) (r : Access)
    → resolve_acl_access u (some acl) (some p) ≡ some r
    → IsEntry u (table_of u acl r.via) r × Justified u p r.via r.principal
unfolding resolve_acl_access
resolve_acl_access-Justified u acl p r e =
    elim (Option-cases (by_user u (normalize_email u p.email) acl.users)) [
      | inl nobody ↦
          let (entry, via, hit) =
            by_group-FromGroup u _ acl.groups r (rw (nobody, resolve_acl_access) at e) in
          subst (λ v. IsEntry u (table_of u acl v) r × Justified u p v r.principal) (sym via)
            (entry, hit)
      | inr (a, found) ↦
          let same : a ≡ r = some-inj (rw (found, resolve_acl_access) at e) in
          let (entry, via, name, ne) = by_user-IsEntry u _ acl.users r (found ∙ ap some same) in
          subst (λ v. IsEntry u (table_of u acl v) r × Justified u p v r.principal) (sym via)
            (entry, (name, ne))
    ]
