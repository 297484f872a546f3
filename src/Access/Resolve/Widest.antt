-- ===== src/Access/Resolve/Widest.antt =====
-- Several matching groups in `resolveAclAccess` of src/core/workspace/lib/access.js.
use mathlib.Core.List.{Memᴰ}
use mathlib.Core.Path.{subst}
use canvas_server.Prelude.{
  ℕ, ◌≤◌, ◌≡◌, refl, sym, inl, inr, Bool, true, Option, none, some, List, [], ◌∷◌, arith, Text,
  or_else, any, length, if◌then◌else◌, Casing, Bool-cases,
}
use canvas_server.Access.Permissions.{
  Permission, read, write, admin, Spec, holds, parsed, entries, normalize_permissions,
}
use canvas_server.Access.Permissions.Canonical.{normalize_permissions-canonical}
use canvas_server.Access.Groups.{group_matches}
use canvas_server.Access.Resolve.{
  Grant, Grants, Acl, Principal, Access, wider, normalize_email, better, group_access, by_user,
  by_group, resolve_acl_access,
}

-- The four normal forms, by their strongest permission.
abbrev chain : Bool → Bool → Bool → List Permission
chain a w r =
    if a
    then read ∷ write ∷ admin ∷ []
    else if w
    then read ∷ write ∷ []
    else if r
    then read ∷ []
    else []

chain-holds :
    (a w r a' w' r' : Bool) (q : Permission)
    → length (chain a w r) ≤ length (chain a' w' r')
    → holds (chain a w r) q ≡ true
    → holds (chain a' w' r') q ≡ true
chain-holds a w r a' w' r' q h k = ground arith

module _ (u : Casing) where
  -- Of two normal forms the longer one holds all that the shorter one holds.
  holds_of_longer :
      (s t : Spec) (q : Permission)
      → length (normalize_permissions u s) ≤ length (normalize_permissions u t)
      → holds (normalize_permissions u s) q ≡ true
      → holds (normalize_permissions u t) q ≡ true
  holds_of_longer s t q h k =
      let f : Permission → Spec → Bool = λ p x. holds (parsed u (entries x)) p in
      subst (λ ps. holds ps q ≡ true) (sym (normalize_permissions-canonical u t))
        (chain-holds (f admin s) (f write s) (f read s) (f admin t) (f write t) (f read t) q
          (subst (λ ps. length ps ≤ length (chain (f admin t) (f write t) (f read t)))
            (normalize_permissions-canonical u s)
            (subst (λ ps. length (normalize_permissions u s) ≤ length ps)
              (normalize_permissions-canonical u t) h))
          (subst (λ ps. holds ps q ≡ true) (normalize_permissions-canonical u s) k))

  -- There is a best access, of at least n permissions.
  abbrev Reaches : ℕ → Option Access → Type 0
  Reaches n none = ⊥
  Reaches n (some r) = n ≤ length r.permissions

  abbrev IsNormal : Option Access → Type 0
  IsNormal none = Unit
  IsNormal (some r) = (s : Spec) × (r.permissions ≡ normalize_permissions u s)

  better-Reaches :
      (key : Text) (grant : Grant) (best : Option Access)
      → Reaches (length (normalize_permissions u grant.permissions)) (better u key grant best)
  unfolding better
  better-Reaches key grant none = omega arith
  better-Reaches key grant (some b) = ground arith

  better-Reaches_old :
      (n : ℕ) (key : Text) (grant : Grant) (best : Option Access)
      → Reaches n best
      → Reaches n (better u key grant best)
  unfolding better
  better-Reaches_old n key grant none h = elim h [ ]
  better-Reaches_old n key grant (some b) h = ground arith

  better-IsNormal :
      (key : Text) (grant : Grant) (best : Option Access)
      → IsNormal best
      → IsNormal (better u key grant best)
  unfolding better
  better-IsNormal key grant best h =
      elim (Bool-cases (wider (normalize_permissions u grant.permissions) best)) [
        | inl more ↦ rw more (grant.permissions, refl)
        | inr less ↦ rw less h
      ]

  -- One round of the loop.
  abbrev round : List (Option Text) → Text → Grant → Option Access → Option Access
  round groups key grant best =
      if any (λ g. group_matches u (some key) g) groups then better u key grant best else best

  round-IsNormal :
      (groups : List (Option Text)) (key : Text) (grant : Grant) (best : Option Access)
      → IsNormal best
      → IsNormal (round groups key grant best)
  round-IsNormal groups key grant best h =
      elim (Bool-cases (any (λ g. group_matches u (some key) g) groups)) [
        | inl hit ↦ rw hit (better-IsNormal key grant best h)
        | inr miss ↦ rw miss h
      ]

  round-Reaches_old :
      (n : ℕ) (groups : List (Option Text)) (key : Text) (grant : Grant) (best : Option Access)
      → Reaches n best
      → Reaches n (round groups key grant best)
  round-Reaches_old n groups key grant best h =
      elim (Bool-cases (any (λ g. group_matches u (some key) g) groups)) [
        | inl hit ↦ rw hit (better-Reaches_old n key grant best h)
        | inr miss ↦ rw miss h
      ]

  group_access-IsNormal :
      (groups : List (Option Text)) (rest : Grants) (best : Option Access)
      → IsNormal best
      → IsNormal (group_access u groups rest best)
  unfolding group_access
  group_access-IsNormal groups [] best h = h
  group_access-IsNormal groups ((key, none) ∷ rest) best h =
      group_access-IsNormal groups rest best h
  group_access-IsNormal groups ((key, some grant) ∷ rest) best h =
      group_access-IsNormal groups rest _ (round-IsNormal groups key grant best h)

  group_access-Reaches_old :
      (n : ℕ) (groups : List (Option Text)) (rest : Grants) (best : Option Access)
      → Reaches n best
      → Reaches n (group_access u groups rest best)
  unfolding group_access
  group_access-Reaches_old n groups [] best h = h
  group_access-Reaches_old n groups ((key, none) ∷ rest) best h =
      group_access-Reaches_old n groups rest best h
  group_access-Reaches_old n groups ((key, some grant) ∷ rest) best h =
      group_access-Reaches_old n groups rest _ (round-Reaches_old n groups key grant best h)

  group_access-Reaches :
      (groups : List (Option Text)) (rest : Grants) (best : Option Access) (key : Text)
      (grant : Grant)
      → Memᴰ (key, some grant) rest
      → any (λ g. group_matches u (some key) g) groups ≡ true
      → Reaches
          (length (normalize_permissions u grant.permissions))
          (group_access u groups rest best)
  unfolding group_access
  group_access-Reaches groups [] best key grant m hit = elim m [ ]
  group_access-Reaches groups (x ∷ rest) best key grant (Memᴰ.head e) hit =
      subst
        (λ y.
          Reaches (length (normalize_permissions u grant.permissions))
            (group_access u groups (y ∷ rest) best))
        e (rw hit (group_access-Reaches_old _ groups rest _ (better-Reaches key grant best)))
  group_access-Reaches groups ((k, none) ∷ rest) best key grant (Memᴰ.tail m) hit =
      group_access-Reaches groups rest best key grant m hit
  group_access-Reaches groups ((k, some g) ∷ rest) best key grant (Memᴰ.tail m) hit =
      group_access-Reaches groups rest (round groups k g best) key grant m hit

  covers :
      (o : Option Access) (s : Spec) (q : Permission)
      → IsNormal o
      → Reaches (length (normalize_permissions u s)) o
      → holds (normalize_permissions u s) q ≡ true
      → (r : Access) × (o ≡ some r) × (holds r.permissions q ≡ true)
  covers none s q normal long k = elim long [ ]
  covers (some r) s q (t, e) long k = (
    r,
    refl,
    subst (λ ps. holds ps q ≡ true) (sym e)
        (holds_of_longer s t q (subst (λ ps. length (normalize_permissions u s) ≤ length ps) e long)
          k),
  )

  by_group-covers :
      (gs : List (Option Text)) (groups : Option Grants) (key : Text) (grant : Grant)
      (q : Permission)
      → Memᴰ (key, some grant) (or_else groups [])
      → any (λ g. group_matches u (some key) g) gs ≡ true
      → holds (normalize_permissions u grant.permissions) q ≡ true
      → (r : Access) × (by_group u gs groups ≡ some r) × (holds r.permissions q ≡ true)
  unfolding by_group
  by_group-covers [] groups key grant q m hit k = cc
  by_group-covers (g ∷ gs) none key grant q m hit k = elim m [ ]
  by_group-covers (g ∷ gs) (some groups) key grant q m hit k =
      covers (group_access u (g ∷ gs) groups none) grant.permissions q
        (group_access-IsNormal (g ∷ gs) groups none tt)
        (group_access-Reaches (g ∷ gs) groups none key grant m hit) k

-- A principal who has no entry under an e-mail, and one of whose groups is granted a permission by
-- some entry of the ACL, gets an access that holds it: of several matching groups none is lost to
-- a narrower one.
pub resolve_acl_access-covers :
    (u : Casing) (acl : Acl) (p : Principal) (key : Text) (grant : Grant) (q : Permission)
    → by_user u (normalize_email u p.email) acl.users ≡ none
    → Memᴰ (key, some grant) (or_else acl.groups [])
    → any (λ g. group_matches u (some key) g) (or_else p.groups []) ≡ true
    → holds (normalize_permissions u grant.permissions) q ≡ true
    → (r : Access) × (resolve_acl_access u (some acl) (some p) ≡ some r)
      × (holds r.permissions q ≡ true)
unfolding resolve_acl_access
resolve_acl_access-covers u acl p key grant q nobody m hit k =
    rw (nobody, resolve_acl_access)
      (by_group-covers u (or_else p.groups []) acl.groups key grant q m hit k)
