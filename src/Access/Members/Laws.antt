-- ===== src/Access/Members/Laws.antt =====
-- What granting and revoking do to the members of a workspace.
use mathlib.Core.Path.{subst}
use canvas_server.Prelude.{
  ◌≡◌, ◌≢◌, refl, sym, ap, ◌∙◌, inl, inr, Bool, false, Option, some, List, [], ◌∷◌, arith, String,
  Text, text_eq, text_eq_iff, if◌then◌else◌, Casing, folded, folded_idem, trim, trim_idem,
  Bool-cases, Option-cases, insert, text_key, Sum-cases, inr-inj, inl-ne-inr,
}
use canvas_server.Access.Permissions.{Permission, normalize_permissions}
use canvas_server.Access.Permissions.Canonical.{stored}
use canvas_server.Access.Resolve.{Grant, Grants, Acl}
use canvas_server.Access.Members.{
  Kind, user, group, Error, invalid_email, group_name_required, filled, table, with_table, Member,
  Options, requested, normalize_principal, entry_of, key_or_null, find_key, existing_of, new_grant,
  respelled, granted, grant_checked, grant,
}
use canvas_server.Access.Members.Tables.{
  IsDistinct, Absent-Only, Absent-of_entry_of, Only-of_found, entry_of-insert, IsDistinct-insert,
  IsReady, remove-IsReady, folded_of_entry_of,
}

cons-ne-nil : (p : Permission) (ps : List Permission) → p ∷ ps ≢ []
cons-ne-nil p ps h = cc

refused-or-key :
    (b : Bool) (e : Error) (k key : Text)
    → (if b then inl e else inr k) ≡ inr key
    → (b ≡ false) × (k ≡ key)
refused-or-key b e k key h = ground arith

module _ (u : Casing) where
  trim-folded : (p : Text) → trim (folded u p) ≡ folded u p
  trim-folded p = u.trim-lower (trim p) ∙ ap u.lower (trim_idem p)

  -- A principal that `normalizePrincipal` lets through.
  normalize_principal-folded :
      (kind : Kind) (p key : Text)
      → normalize_principal u kind p ≡ inr key
      → (folded u key ≡ folded u p) × (trim key ≢ [])
  unfolding normalize_principal
  normalize_principal-folded user p key h =
      let (passed, same) = refused-or-key _ invalid_email (folded u p) key h in
      (
        ap (folded u) (sym same) ∙ folded_idem u p,
        λ blank.
            let empty : folded u p ≡ [] = sym (trim-folded p) ∙ ap trim same ∙ blank in
            ground (arith, text_eq_iff (folded u p) []),
      )
  normalize_principal-folded group p key h =
      let (passed, same) = refused-or-key _ group_name_required (trim p) key h in
      (
        ap (folded u) (sym same) ∙ ap u.lower (trim_idem p),
        λ blank.
            let empty : trim p ≡ [] = sym (trim_idem p) ∙ ap trim same ∙ blank in
            ground (arith, text_eq_iff (trim p) []),
      )

  -- The key that is found under a form that is not blank is not empty.
  found-ne-nil : (old key : Text) → folded u old ≡ folded u key → trim key ≢ [] → old ≢ []
  found-ne-nil old key e ne empty =
      ne (u.lower-eq-nil (trim key) (sym e ∙ ap (folded u) empty ∙ u.lower_of_plain [] tt))

  key_or_null-some :
      (old : Text) (g : Option Grant) → old ≢ [] → key_or_null u (some (old, g)) ≡ some old
  key_or_null-some [] g ne = absurd (ne refl)
  key_or_null-some (c ∷ old) g ne = refl

  respelled-IsReady :
      (kind : Kind) (key : Text) (acl : Acl)
      → trim key ≢ []
      → IsDistinct u (table kind acl)
      → IsReady u key (table kind acl) (respelled u (find_key u kind key acl) key (table kind acl))
  unfolding find_key respelled
  respelled-IsReady kind key acl ne d =
      elim (Option-cases (entry_of u (folded u key) (table kind acl))) [
        | inl nobody ↦
            rw (nobody, key_or_null)
              (record {
                only =
                    Absent-Only u key (table kind acl)
                      (Absent-of_entry_of u (folded u key) (table kind acl) nobody);
                distinct = d;
                others = λ w n. refl;
              })
        | inr ((old, g), h) ↦
            let solid : old ≢ [] =
              found-ne-nil old key (folded_of_entry_of u (folded u key) (table kind acl) h) ne in
            rw h (
              rw (key_or_null-some old g solid) (elim (Bool-cases (text_eq old key)) [
                | inl same ↦ rw same (record {
                  only = Only-of_found u key (table kind acl) {g = g} d (
                      subst (λ k. entry_of u (folded u key) (table kind acl) ≡ some (k, g))
                        ((text_eq_iff old key).0 same) h);
                  distinct = d;
                  others = λ w n. refl;
                })
                | inr other ↦ rw other (remove-IsReady u old key (table kind acl) g d h)
              ]))
      ]

  pub table-with_table :
      (kind : Kind) (t : Grants) (acl : Acl) → table kind (with_table kind t acl) ≡ t
  table-with_table user t acl = refl
  table-with_table group t acl = refl

  -- The abstract view of a store: the entry of each form.
  abbrev pub entry : Kind → Text → Option Acl → Option (Text × Option Grant)
  entry kind w store = entry_of u w (table kind (filled store))

  -- No two keys of a kind differ only by case or outer space.
  abbrev pub IsWellFormed : Kind → Option Acl → Type 0
  IsWellFormed kind store = IsDistinct u (table kind (filled store))

  pub table-filled : (kind : Kind) (acl : Acl) → table kind (filled (some acl)) ≡ table kind acl
  table-filled user acl = refl
  table-filled group acl = refl

  -- What a grant under a normalised key does to the view of the store.
  abbrev HasGranted : Kind → Text → Acl → Member × Acl → Type 0
  HasGranted kind key acl (m, acl') =
      IsDistinct u (table kind acl')
      × ((w : Text)
          → entry_of u w (table kind acl') ≡ (
              if text_eq (folded u key) w
              then some (m.principal, some m.grant)
              else entry_of u w (table kind acl)))

  granted_lem :
      (now : String) (kind : Kind) (key : Text) (ps : List Permission) (o : Options) (acl : Acl)
      → trim key ≢ []
      → IsDistinct u (table kind acl)
      → HasGranted kind key acl (granted u now kind key ps o acl)
  unfolding granted
  granted_lem now kind key ps o acl ne d =
      let ready = respelled-IsReady kind key acl ne d in
      let t' : Grants = respelled u (find_key u kind key acl) key (table kind acl) in
      let g : Grant =
        new_grant u now ps o (existing_of u (find_key u kind key acl) (table kind acl)) in
      let made : table kind (with_table kind (insert key (some g) t') acl)
          ≡ insert key (some g) t' =
        table-with_table kind (insert key (some g) t') acl in
      (
        subst (IsDistinct u) (sym made)
            (IsDistinct-insert u key (some g) t' ready.only ready.distinct),
        λ w.
            ap (entry_of u w) made
            ∙ entry_of-insert u key w (some g) t' ready.only
            ∙ (elim (Bool-cases (text_eq (folded u key) w)) [
              | inl same ↦ rw same
              | inr other ↦
                  rw other (ready.others w (λ e. ground (arith, text_eq_iff (folded u key) w)))
            ]),
      )

  granted_parts :
      (now : String) (kind : Kind) (key : Text) (ps : List Permission) (o : Options) (acl : Acl)
      → ((granted u now kind key ps o acl).0.permissions ≡ ps)
        × ((granted u now kind key ps o acl).0.grant.permissions ≡ stored u ps)
        × ((granted u now kind key ps o acl).0.kind ≡ kind)
        × ((granted u now kind key ps o acl).0.principal ≡ key)
  unfolding granted new_grant
  granted_parts now kind key ps o acl = (refl, refl, refl, refl)

  -- What a grant that succeeds does to the view of the store.
  pub record HasEntry (kind : Kind) (w : Text) (ps : List Permission) (acl : Acl) (m : Member)
      (acl' : Acl) : Type 0 where
    pub distinct : IsDistinct u (table kind acl')
    pub view :
        (v : Text)
        → entry_of u v (table kind acl') ≡ (
            if text_eq w v then some (m.principal, some m.grant) else entry_of u v (table kind acl))
    pub permissions : m.permissions ≡ ps
    pub some_permission : m.permissions ≢ []
    pub kept : m.grant.permissions ≡ stored u m.permissions
    pub kind_kept : m.kind ≡ kind
    pub principal_kept : m.principal ≢ []
    pub form_kept : w ≢ []

  grant_checked-HasEntry :
      (now : String) (kind : Kind) (key : Text) (ps : List Permission) (o : Options) (acl : Acl)
      (m : Member) (acl' : Acl)
      → trim key ≢ []
      → IsDistinct u (table kind acl)
      → grant_checked u now kind key ps o acl ≡ inr (m, acl')
      → HasEntry kind (folded u key) ps acl m acl'
  grant_checked-HasEntry now kind key [] o acl m acl' ne d h =
      absurd (unfold grant_checked in inl-ne-inr h)
  grant_checked-HasEntry now kind key (p ∷ ps) o acl m acl' ne d h =
      let e : granted u now kind key (p ∷ ps) o acl ≡ (m, acl') =
        unfold grant_checked in inr-inj h in
      let made = granted_lem now kind key (p ∷ ps) o acl ne d in
      let parts = granted_parts now kind key (p ∷ ps) o acl in
      let perms : m.permissions ≡ p ∷ ps = sym (ap (λ x. x.0.permissions) e) ∙ parts.0 in
      record {
        distinct = subst (λ x. IsDistinct u (table kind x.1)) e made.0;
        view = λ v.
            subst
              (λ x. entry_of u v (table kind x.1) ≡ (
                if text_eq (folded u key) v
                then some (x.0.principal, some x.0.grant)
                else entry_of u v (table kind acl)))
              e (made.1 v);
        permissions = perms;
        some_permission = λ none_left. cons-ne-nil p ps (sym perms ∙ none_left);
        kept = sym (ap (λ x. x.0.grant.permissions) e) ∙ parts.1 ∙ ap (stored u) (sym perms);
        kind_kept = sym (ap (λ x. x.0.kind) e) ∙ parts.2;
        form_kept = λ empty. ne (u.lower-eq-nil (trim key) empty);
        principal_kept = λ empty. ne (ap trim (sym parts.3 ∙ ap (λ x. x.0.principal) e ∙ empty));
      }

  pub HasEntry-grant :
      (now : String) (kind : Kind) (p : Text) (o : Options) (store : Option Acl) (m : Member)
      (acl' : Acl)
      → IsWellFormed kind store
      → grant u now kind p o store ≡ inr (m, acl')
      → HasEntry kind
          (folded u p)
          (normalize_permissions u (requested o.permissions))
          (filled store)
          m
          acl'
  unfolding grant
  HasEntry-grant now kind p o store m acl' wf h = elim (Sum-cases (normalize_principal u kind p)) [
    | inl (e, refused) ↦ absurd (inl-ne-inr {a = e} (rw (refused, grant) at h))
    | inr (key, kept) ↦
        let (same, ne) = normalize_principal-folded kind p key kept in
        subst
          (λ w.
            HasEntry kind w (normalize_permissions u (requested o.permissions)) (filled store) m
              acl')
          same
          (grant_checked-HasEntry now kind key _ o (filled store) m acl' ne wf
            (rw (kept, grant) at h))
  ]

  -- On a store in which no two keys of the kind differ only by case or outer space, a grant that
  -- succeeds keeps the store so, and changes its entries at the form of the principal and nowhere
  -- else: there stand the returned member's key and grant. The member's permissions are the normal
  -- form of those asked for, and are not empty.
  pub grant-entry :
      (now : String) (kind : Kind) (p : Text) (o : Options) (store : Option Acl) (m : Member)
      (acl' : Acl)
      → IsWellFormed kind store
      → grant u now kind p o store ≡ inr (m, acl')
      → IsWellFormed kind (some acl')
        × ((w : Text)
            → entry kind w (some acl') ≡ (
                if text_eq (folded u p) w
                then some (m.principal, some m.grant)
                else entry kind w store))
        × (m.permissions ≡ normalize_permissions u (requested o.permissions))
        × (m.permissions ≢ [])
  grant-entry now kind p o store m acl' wf h =
      let made = HasEntry-grant now kind p o store m acl' wf h in
      let t : table kind (filled (some acl')) ≡ table kind acl' = table-filled kind acl' in
      (
        subst (IsDistinct u) (sym t) made.distinct,
        λ w. ap (entry_of u w) t ∙ made.view w,
        made.permissions,
        made.some_permission,
      )
