-- ===== src/Workspaces/Registry/Created.antt =====
-- New workspaces of src/core/workspace/index.js.
use mathlib.Core.Path.{subst}
use canvas_server.Prelude.{
  ◌≡◌, ◌≢◌, refl, inl, inr, true, ◌||◌, Option, none, some, [], ◌∷◌, arith, Text, text_eq,
  text_eq_iff, lookup, text_key, Bool-cases, Option-cases, some-inj, sym, ◌∙◌, ap, ℕ, All, keep,
  Casing, is_plain,
}
use canvas_server.Workspaces.References.{construct_workspace_reference}
use canvas_server.Workspaces.References.RoundTrip.{Lacks, cut_at-none}
use canvas_server.Workspaces.Indexes.Defs.{
  Entry, Manager, truthy, host_of, key_of, name_key, entry_key,
}
use canvas_server.Workspaces.Indexes.Consistent.{Has, IsProper, IsConsistent, added, added-new}
use canvas_server.Workspaces.Indexes.Added.{IsConsistent-added}
use canvas_server.Workspaces.Indexes.Found.{truthy_of_filled}
use canvas_server.Workspaces.Names.{
  is_slug, sanitize_workspace_name, addressed, resolve_own_workspace_id,
}
use canvas_server.Workspaces.Guarded.{World}
use canvas_server.Workspaces.Registry.{
  Error, name_and_user_required, name_exists, directory_refused, reference_refused, Options, Place,
  Result, refused, done, new_entry, placed, stored_new, create_workspace,
}
use canvas_server.Workspaces.Registry.Moves.{
  truthy-key_of, name_key_of_plain, free_of_truthy, constructed, refused-ne-done, done-inj,
}

abbrev pub IsSlug : Text → Type 0
IsSlug = All (λ c. is_slug c ≡ true)

keep-IsSlug : (s : Text) → IsSlug (keep is_slug s)
keep-IsSlug [] = tt
keep-IsSlug (c ∷ s) = elim (Bool-cases (is_slug c)) [
  | inl ok ↦ rw (ok, keep) (ok, keep-IsSlug s)
  | inr bad ↦ rw (bad, keep) (keep-IsSlug s)
]

keep_of_slug : (s : Text) → IsSlug s → keep is_slug s ≡ s
keep_of_slug [] h = refl
keep_of_slug (c ∷ s) (p, h) = rw (p, keep) (ap (λ t. c ∷ t) (keep_of_slug s h))

IsSlug-plain : (s : Text) → IsSlug s → All (λ c. is_plain c ≡ true) s
IsSlug-plain [] h = tt
IsSlug-plain (c ∷ s) (p, h) = (ground (arith, p), IsSlug-plain s h)

pub IsSlug-Lacks : (s : Text) → IsSlug s → Lacks b'@' s
IsSlug-Lacks [] h = tt
IsSlug-Lacks (c ∷ s) (p, h) = (ground (arith, p), IsSlug-Lacks s h)

pub sanitize_workspace_name-IsSlug :
    (u : Casing) (name : Text) → IsSlug (sanitize_workspace_name u name)
unfolding sanitize_workspace_name
sanitize_workspace_name-IsSlug u name = keep-IsSlug (u.lower name)

sanitize_of_slug : (u : Casing) (s : Text) → IsSlug s → sanitize_workspace_name u s ≡ s
unfolding sanitize_workspace_name
sanitize_of_slug u s h =
    ap (keep is_slug) (u.lower_of_plain s (IsSlug-plain s h)) ∙ keep_of_slug s h

-- A sanitised name is looked up under its name key.
resolve_own_of_slug :
    (u : Casing) (user_id slug host : Text) (m : Manager)
    → IsSlug slug
    → resolve_own_workspace_id u user_id slug host m
      ≡ truthy (lookup (key_of user_id host slug) m.names)
unfolding resolve_own_workspace_id addressed
resolve_own_of_slug u user_id slug host m h =
    rw (cut_at-none slug (IsSlug-Lacks slug h)) (rw (sanitize_of_slug u slug h) refl)

pub free_key :
    (w : World) (m : Manager) (c : IsConsistent m) (user_id slug host : Text)
    → IsSlug slug
    → resolve_own_workspace_id w.casing user_id slug host m ≡ none
    → lookup (key_of user_id host slug) m.names ≡ none
free_key w m c user_id slug host plain free =
    free_of_truthy m (key_of user_id host slug) c
      (sym (resolve_own_of_slug w.casing user_id slug host m plain) ∙ free)

host_of_host : (h : Option Text) → host_of (some (host_of h)) ≡ host_of h
host_of_host none = refl
host_of_host (some []) = refl
host_of_host (some (c ∷ h)) = refl

-- What a creation promises for the user, the host and the fresh id.
abbrev pub IsCreated : World → Text → Text → Text → Result × Manager → Type 0
IsCreated w user_id host uuid r =
    IsConsistent r.1
    × ((e : Entry)
        → r.0 ≡ done e
        → (e.id ≡ uuid)
          × Has user_id uuid e r.1
          × (resolve_own_workspace_id w.casing user_id e.name host r.1 ≡ some uuid))

refused_creates :
    (w : World) (user_id host uuid : Text) (m : Manager) (x : Error)
    → IsConsistent m
    → IsCreated w user_id host uuid (refused x, m)
refused_creates w user_id host uuid m x c = (c, λ f e. absurd (refused-ne-done e))

module _ (w : World) (m : Manager) (c : IsConsistent m) (user_id slug uuid : Text)
    (options : Options) (place : Place) (now : ℕ) (plain : IsSlug slug) (has_user : user_id ≢ [])
    (has_slug : slug ≢ []) (has_id : uuid ≢ []) (fresh : lookup uuid m.ids ≡ none)
    (free : lookup (key_of user_id (host_of options.host) slug) m.names ≡ none) where
  abbrev pub host : Text
  host = host_of options.host

  abbrev pub made : Entry
  made = new_entry uuid user_id slug host options place (key_of user_id host slug) now

  pub made-key : entry_key user_id made ≡ key_of user_id host slug
  unfolding new_entry
  made-key =
      ap (name_key user_id slug) (host_of_host options.host)
      ∙ name_key_of_plain user_id slug host (IsSlug-Lacks slug plain)

  pub made-IsProper : IsProper user_id uuid made
  unfolding new_entry
  made-IsProper = record {
    keyed = refl;
    owned = refl;
    has_id = has_id;
    has_owner = has_user;
    has_name = has_slug;
    referred = λ r is. some-inj (sym is ∙ truthy-key_of user_id host slug) ∙ sym made-key;
    plain = λ near. IsSlug-Lacks slug plain;
  }

  made-IsCreated : IsCreated w user_id host uuid (stored_new made m)
  unfolding new_entry
  made-IsCreated =
      let now_consistent =
        IsConsistent-added m user_id made c made-IsProper fresh
          (ap (λ k. lookup k m.names) made-key ∙ free) in
      (
        now_consistent,
        λ e is.
            subst
              (λ e.
                (e.id ≡ uuid)
                × Has user_id uuid e (added user_id made m)
                × (resolve_own_workspace_id w.casing user_id e.name host (added user_id made m)
                    ≡ some uuid))
              (done-inj is)
              (
                refl,
                added-new m user_id made,
                resolve_own_of_slug w.casing user_id slug host (added user_id made m) plain
                    ∙ ap truthy (
                        ap (λ k. lookup k (added user_id made m).names) (sym made-key)
                        ∙ now_consistent.named user_id uuid made (added-new m user_id made))
                    ∙ truthy_of_filled uuid has_id,
              ),
      )

pub slug_of_constructed :
    (v name host : Text) (r : Text)
    → construct_workspace_reference v name host [] ≡ some r
    → name ≢ []
unfolding construct_workspace_reference
slug_of_constructed v name host r h x = ground (arith, h, text_eq_iff name [], x)

placed-IsCreated :
    (w : World) (m : Manager) (user_id slug uuid : Text) (options : Options) (place : Option Place)
    (now : ℕ)
    → IsConsistent m
    → IsSlug slug
    → user_id ≢ []
    → uuid ≢ []
    → lookup uuid m.ids ≡ none
    → lookup (key_of user_id (host_of options.host) slug) m.names ≡ none
    → IsCreated w user_id
        (host_of options.host)
        uuid
        (placed uuid user_id slug (host_of options.host) options place now m)
placed-IsCreated w m user_id slug uuid options none now c plain has_user has_id fresh free =
    refused_creates w user_id _ uuid m directory_refused c
placed-IsCreated w m user_id slug uuid options (some place) now c plain has_user has_id fresh free =
    elim (Option-cases (construct_workspace_reference user_id slug (host_of options.host) [])) [
      | inl bad ↦ rw (bad, placed) (refused_creates w user_id _ uuid m reference_refused c)
      | inr (r, ok) ↦
          rw (ok, placed)
            (subst
              (λ r. IsCreated w user_id (host_of options.host) uuid (
                stored_new (new_entry uuid user_id slug (host_of options.host) options place r now)
                  m))
              (sym (constructed user_id slug (host_of options.host) r ok))
              (made-IsCreated w m c user_id slug uuid options place now plain has_user
                (slug_of_constructed user_id slug (host_of options.host) r ok) has_id fresh free))
    ]

-- On consistent indexes, with an id that no entry has, creating a workspace leaves the indexes
-- consistent, whether it succeeds or fails. The entry that it returns stands under the new id with
-- the user, and looking up its name among the user's own workspaces on that host gives the id.
pub create_workspace-IsCreated :
    (w : World) (m : Manager) (name user_id uuid : Text) (options : Options) (place : Option Place)
    (now : ℕ)
    → IsConsistent m
    → uuid ≢ []
    → lookup uuid m.ids ≡ none
    → IsCreated w user_id
        (host_of options.host)
        uuid
        (create_workspace w name user_id options uuid place now m)
unfolding create_workspace
create_workspace-IsCreated w m name user_id uuid options place now c has_id fresh =
    let slug = sanitize_workspace_name w.casing name in
    let plain = sanitize_workspace_name-IsSlug w.casing name in
    let host = host_of options.host in
    elim (Bool-cases (text_eq name [] || text_eq user_id [])) [
      | inl missing ↦
          rw (missing, create_workspace)
            (refused_creates w user_id _ uuid m name_and_user_required c)
      | inr given ↦ elim (Option-cases (resolve_own_workspace_id w.casing user_id slug host m)) [
        | inr (j, taken) ↦
            rw (given, taken, create_workspace) (refused_creates w user_id _ uuid m name_exists c)
        | inl free ↦
            rw (given, free, create_workspace)
              (placed-IsCreated w m user_id slug uuid options place now c plain
                (λ x. ground (arith, text_eq_iff user_id [], given, x)) has_id fresh
                (free_key w m c user_id slug host plain free))
      ]
    ]
