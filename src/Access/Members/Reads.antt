-- ===== src/Access/Members/Reads.antt =====
-- Reading members back, revoking them, and what a grant means for access.
use mathlib.Core.Path.{subst}
use canvas_server.Prelude.{
  ◌≡◌, ◌≢◌, refl, sym, ap, ◌∙◌, inl, inr, true, Option, none, some, List, [], ◌∷◌, arith, String,
  Text, text_eq, text_eq_iff, or_else, if◌then◌else◌, Casing, folded, Bool-cases, Option-cases,
  remove, lookup, text_key, some-inj,
}
use canvas_server.Access.Permissions.{Spec, normalize_permissions}
use canvas_server.Access.Permissions.Canonical.{stored, normalize_permissions-stored}
use canvas_server.Access.Resolve.{
  Grant, Grants, Acl, Via, Access, access_of, normalize_email, user_access, by_user,
  resolve_acl_access,
}
use canvas_server.Access.Members.{
  Kind, user, filled, table, with_table, Member, Options, requested, entry_of, key_or_null,
  find_key, Found, missing, found, member_at, get, grant, revoke,
}
use canvas_server.Access.Members.Tables.{
  IsDistinct, Only, Only-of_found, entry_of-remove, IsDistinct-remove, folded_of_entry_of,
}
use canvas_server.Access.Members.Laws.{
  entry, IsWellFormed, grant-entry, HasEntry, HasEntry-grant, table-filled, table-with_table,
}

null_entry : (j k : Text) (g : Grant) → ◌≢◌ {A = Text × Option Grant} (j, none) (k, some g)
null_entry j k g h = cc

module _ (u : Casing) where
  -- The value that stands under a key that was found by its form.
  lookup_of_found :
      (w : Text) (t : Grants) (k : Text) (g : Option Grant)
      → entry_of u w t ≡ some (k, g)
      → lookup k t ≡ some g
  unfolding entry_of lookup
  lookup_of_found w [] k g h = cc
  lookup_of_found w ((j, x) ∷ rest) k g h = elim (Bool-cases (text_eq (folded u j) w)) [
    | inl same ↦
        let e : (j, x) ≡ (k, g) = some-inj (sym (rw same) ∙ h) in
        let hit : text_eq j k ≡ true = (text_eq_iff j k).1 (ap (λ y. y.0) e) in
        rw hit (ap (λ y. some y.1) e)
    | inr other ↦
        let h' : entry_of u w rest ≡ some (k, g) = sym (rw other) ∙ h in
        elim (Bool-cases (text_eq j k)) [
          | inl same ↦
              let e : folded u j ≡ w =
                ap (folded u) ((text_eq_iff j k).0 same) ∙ folded_of_entry_of u w rest h' in
              ground (arith, text_eq_iff (folded u j) w)
          | inr differ ↦ rw differ (lookup_of_found w rest k g h')
        ]
  ]

  -- What `get` makes of the entry that it finds.
  abbrev seen : Kind → Option (Text × Option Grant) → Found
  seen kind none = missing
  seen kind (some ([], g)) = missing
  seen kind (some (c ∷ k, g)) = member_at u kind (c ∷ k) (some g)

  seen-entry :
      (kind : Kind) (t : Grants) (o : Option (Text × Option Grant))
      → ((k : Text) (g : Option Grant) → o ≡ some (k, g) → lookup k t ≡ some g)
      → elim (key_or_null u o) [ none ↦ missing | some key ↦ member_at u kind key (lookup key t) ]
        ≡ seen kind o
  seen-entry kind t none h = refl
  seen-entry kind t (some ([], g)) h = refl
  seen-entry kind t (some (c ∷ k, g)) h = rw (h (c ∷ k) g refl)

  get-eq-seen :
      (kind : Kind) (q : Text) (store : Option Acl)
      → get u kind q store ≡ seen kind (entry u kind (folded u q) store)
  unfolding get find_key
  get-eq-seen kind q store =
      seen-entry kind (table kind (filled store)) (entry u kind (folded u q) store)
        (λ k g h. lookup_of_found (folded u q) (table kind (filled store)) k g h)

  seen_solid :
      (kind : Kind) (k : Text) (g : Grant)
      → k ≢ []
      → seen kind (some (k, some g))
        ≡ found (record {
          kind = kind;
          principal = k;
          permissions = normalize_permissions u g.permissions;
          grant = g;
        })
  unfolding member_at
  seen_solid kind [] g ne = absurd (ne refl)
  seen_solid kind (c ∷ k) g ne = refl

  seen-found :
      (kind : Kind) (m : Member)
      → normalize_permissions u m.grant.permissions ≡ m.permissions
      → m.kind ≡ kind
      → m.principal ≢ []
      → seen kind (some (m.principal, some m.grant)) ≡ found m
  seen-found kind m normal same ne = seen_solid kind m.principal m.grant ne ∙ (λ i. found (record {
    kind = sym same i;
    principal = m.principal;
    permissions = normal i;
    grant = m.grant;
  }))

  normal_of_HasEntry :
      (spec : Spec) {kind : Kind} {w : Text} {acl acl' : Acl} {m : Member}
      → HasEntry u kind w (normalize_permissions u spec) acl m acl'
      → normalize_permissions u m.grant.permissions ≡ m.permissions
  normal_of_HasEntry spec h =
      ap (normalize_permissions u) (h.kept ∙ ap (stored u) h.permissions)
      ∙ normalize_permissions-stored u spec
      ∙ sym h.permissions

  -- After a grant that succeeds on a store in which no two keys of the kind differ only by case or
  -- outer space, `get` with any spelling of the same principal returns the member that the grant
  -- returned, and with any other principal what it returned before.
  pub get-grant :
      (now : String) (kind : Kind) (p q : Text) (o : Options) (store : Option Acl) (m : Member)
      (acl' : Acl)
      → IsWellFormed u kind store
      → grant u now kind p o store ≡ inr (m, acl')
      → get u kind q (some acl')
        ≡ (if text_eq (folded u p) (folded u q) then found m else get u kind q store)
  get-grant now kind p q o store m acl' wf h =
      let made = HasEntry-grant u now kind p o store m acl' wf h in
      get-eq-seen kind q (some acl')
      ∙ ap (seen kind) ((grant-entry u now kind p o store m acl' wf h).1 (folded u q))
      ∙ (elim (Bool-cases (text_eq (folded u p) (folded u q))) [
        | inl same ↦ rw same (
            seen-found kind m (normal_of_HasEntry (requested o.permissions) made) made.kind_kept
              made.principal_kept)
        | inr other ↦ rw other (sym (get-eq-seen kind q store))
      ])

  seen_of_null :
      (kind : Kind) (o : Option (Text × Option Grant))
      → key_or_null u o ≡ none
      → seen kind o ≡ missing
  seen_of_null kind none h = refl
  seen_of_null kind (some ([], g)) h = refl
  seen_of_null kind (some (c ∷ k, g)) h = cc

  found_of_key :
      (o : Option (Text × Option Grant)) (key : Text)
      → key_or_null u o ≡ some key
      → (g : Option Grant) × (o ≡ some (key, g))
  found_of_key none key h = cc
  found_of_key (some ([], g)) key h = cc
  found_of_key (some (c ∷ k, g)) key h = (g, ap (λ x. some (x, g)) (some-inj h))

  seen_removed :
      (kind : Kind) (key q : Text) (acl : Acl)
      → Only u key (table kind acl)
      → get u kind q (some (with_table kind (remove key (table kind acl)) acl)) ≡ (
          if text_eq (folded u key) (folded u q)
          then missing
          else seen kind (entry_of u (folded u q) (table kind acl)))
  seen_removed kind key q acl only =
      let acl' : Acl = with_table kind (remove key (table kind acl)) acl in
      get-eq-seen kind q (some acl')
      ∙ ap (λ t. seen kind (entry_of u (folded u q) t))
          (table-filled u kind acl' ∙ table-with_table u kind (remove key (table kind acl)) acl)
      ∙ ap (seen kind) (entry_of-remove u key (folded u q) (table kind acl) only)
      ∙ (elim (Bool-cases (text_eq (folded u key) (folded u q))) [
        | inl same ↦ rw same
        | inr other ↦ rw other
      ])

  -- In a store in which no two keys of the kind differ only by case or outer space, whether or not
  -- there was an entry, after `revoke` the principal is no member under any spelling, the other
  -- members stand as before, and the store is still such a store.
  pub get-revoke :
      (kind : Kind) (p q : Text) (store : Option Acl)
      → IsWellFormed u kind store
      → IsWellFormed u kind (revoke u kind p store).0
        × (get u kind q (revoke u kind p store).0
            ≡ (if text_eq (folded u p) (folded u q) then missing else get u kind q store))
  unfolding revoke find_key
  get-revoke kind p q store wf =
      let t : Grants = table kind (filled store) in
      elim (Option-cases (key_or_null u (entry_of u (folded u p) t))) [
        | inl nobody ↦
            rw (nobody, revoke)
              (
                wf,
                elim (Bool-cases (text_eq (folded u p) (folded u q))) [
                  | inl same ↦ rw same (
                      get-eq-seen kind q store
                      ∙ ap (λ w. seen kind (entry_of u w t)) (sym ((text_eq_iff _ _).0 same))
                      ∙ seen_of_null kind (entry_of u (folded u p) t) nobody)
                  | inr other ↦ rw other
                ],
              )
        | inr (key, hit) ↦
            let (g, at) = found_of_key (entry_of u (folded u p) t) key hit in
            let e : folded u key ≡ folded u p = folded_of_entry_of u (folded u p) t at in
            let only : Only u key t =
              Only-of_found u key t {g = g} wf
                (subst (λ w. entry_of u w t ≡ some (key, g)) (sym e) at) in
            rw (hit, revoke)
              (
                subst (IsDistinct u)
                    (sym (
                      table-filled u kind _
                      ∙ table-with_table u kind (remove key t) (filled store)))
                    (IsDistinct-remove u key t wf),
                seen_removed kind key q (filled store) only ∙ (rw (e, ← get-eq-seen kind q store)),
              )
      ]

  user_access-entry_of :
      (w : Text) (t : Grants) (k : Text) (g : Grant)
      → entry_of u w t ≡ some (k, some g)
      → user_access u w t ≡ some (access_of u Via.user k g)
  unfolding user_access normalize_email entry_of
  user_access-entry_of w [] k g h = cc
  user_access-entry_of w ((j, none) ∷ rest) k g h = elim (Bool-cases (text_eq (folded u j) w)) [
    | inl same ↦ absurd (null_entry j k g (some-inj (sym (rw same) ∙ h)))
    | inr other ↦ user_access-entry_of w rest k g (sym (rw other) ∙ h)
  ]
  user_access-entry_of w ((j, some x) ∷ rest) k g h = elim (Bool-cases (text_eq (folded u j) w)) [
    | inl same ↦
        let e : (j, some x) ≡ (k, some g) = some-inj (sym (rw same) ∙ h) in
        rw same (
          ap some (
            ap (λ y. access_of u Via.user y x) (ap (λ y. y.0) e)
            ∙ ap (access_of u Via.user k) (some-inj (ap (λ y. y.1) e))))
    | inr other ↦ rw other (user_access-entry_of w rest k g (sym (rw other) ∙ h))
  ]

  by_user-entry_of :
      (w : Text) (users : Option Grants) (k : Text) (g : Grant)
      → w ≢ []
      → entry_of u w (or_else users []) ≡ some (k, some g)
      → by_user u w users ≡ some (access_of u Via.user k g)
  unfolding by_user entry_of
  by_user-entry_of [] users k g ne h = absurd (ne refl)
  by_user-entry_of (c ∷ w) none k g ne h = cc
  by_user-entry_of (c ∷ w) (some t) k g ne h = user_access-entry_of (c ∷ w) t k g h

  -- Sharing works end to end: once a grant to an e-mail has succeeded on a store in which no two
  -- users' keys differ only by case or outer space, a principal who signs in with any spelling of
  -- that e-mail resolves to the permissions of the grant, whatever groups he has.
  pub resolve_acl_access-grant :
      (now : String) (p q : Text) (o : Options) (store : Option Acl) (m : Member) (acl' : Acl)
      (groups : Option (List (Option Text)))
      → IsWellFormed u user store
      → grant u now user p o store ≡ inr (m, acl')
      → folded u q ≡ folded u p
      → (r : Access) × (resolve_acl_access u
            (some acl')
            (some (record { email = some q; groups = groups }))
          ≡ some r)
        × (r.permissions ≡ normalize_permissions u (requested o.permissions))
        × (r.via ≡ Via.user)
  unfolding resolve_acl_access normalize_email
  resolve_acl_access-grant now p q o store m acl' groups wf h same =
      let made = HasEntry-grant u now user p o store m acl' wf h in
      let at : entry_of u (folded u p) (table user acl') ≡ some (m.principal, some m.grant) =
        made.view (folded u p) ∙ (rw ((text_eq_iff (folded u p) (folded u p)).1 refl)) in
      let hit : by_user u (folded u q) acl'.users
          ≡ some (access_of u Via.user m.principal m.grant) =
        ap (λ w. by_user u w acl'.users) same
        ∙ by_user-entry_of (folded u p) acl'.users m.principal m.grant made.form_kept at in
      (
        access_of u Via.user m.principal m.grant,
        rw (hit, resolve_acl_access),
        normal_of_HasEntry (requested o.permissions) made ∙ made.permissions,
        refl,
      )
