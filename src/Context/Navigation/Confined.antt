-- ===== src/Context/Navigation/Confined.antt =====
-- The base URL of a context and `setUrl` of src/core/context/lib/Context.js.
use mathlib.Core.Path.{subst}
use canvas_server.Prelude.{
  ◌≡◌, ◌≢◌, refl, sym, ap, ◌∙◌, inl, inr, ◌⊎◌, Bool, true, false, Option, some, List, String,
  or_else, Text, starts_with, Bool-cases, Option-cases, Sum-cases, inr-inj, inl-ne-inr,
}
use canvas_server.Context.Url.{ParsedUrl}
use canvas_server.Context.Navigation.{
  Place, Navigator, Effect, NavigationError, context_locked, invalid_url, outside_base,
  insert_failed, Host, deep, parsed, is_allowed, depart, arrive, then_arrive, move, set_url,
}

no_move : (e : NavigationError) (c' : Navigator) → inl e ≢ inr c'
no_move e c' h = cc

test-inj : {a b : Bool} → ◌≡◌ {A = Bool ⊎ NavigationError} (inl a) (inl b) → a ≡ b
test-inj e = cc

module _ (host : Host) where
  -- The context's path begins with the path of its base URL, if that is set and not the root.
  abbrev pub IsConfined : Navigator → Type 0
  IsConfined c =
      (b : Text)
      → deep c.base_url ≡ some b
      → (base : ParsedUrl) × (parsed host b ≡ some base)
        × ((p : Text) × (c.path ≡ some p) × (starts_with base.path p ≡ true))

  arrive-place :
      (now : String) (target : Text) (p : ParsedUrl) (place : Place) (c c' : Navigator)
      → (arrive host now target p place c).1 ≡ inr c'
      → (c'.path ≡ some p.path) × (c'.base_url ≡ c.base_url)
  unfolding arrive
  arrive-place now target p place c c' h = elim (Bool-cases (host.insert_path place p.path)) [
    | inr failed ↦ absurd (no_move insert_failed c' (rw (failed, arrive) at h))
    | inl inserted ↦
        subst (λ x. (x.path ≡ some p.path) × (x.base_url ≡ c.base_url))
          (inr-inj (rw (inserted, arrive) at h)) (refl, refl)
  ]

  then_arrive-place :
      (now : String) (target : Text) (p : ParsedUrl) (c c' : Navigator)
      (d : List Effect × (NavigationError ⊎ Place))
      → (then_arrive host now target p c d).1 ≡ inr c'
      → (c'.path ≡ some p.path) × (c'.base_url ≡ c.base_url)
  then_arrive-place now target p c c' (es, inl e) h = absurd (no_move e c' h)
  then_arrive-place now target p c c' (es, inr place) h = arrive-place now target p place c c' h

  allowed-base :
      (base : Option Text) (path b : Text)
      → is_allowed host base path ≡ inl true
      → deep base ≡ some b
      → (q : ParsedUrl) × (parsed host b ≡ some q) × (starts_with q.path path ≡ true)
  unfolding is_allowed
  allowed-base base path b h set = elim (Option-cases (parsed host b)) [
    | inl broken ↦ absurd (inl-ne-inr (sym (rw (set, broken, is_allowed) at h)))
    | inr (q, parses) ↦ (q, parses, test-inj (rw (set, parses, is_allowed) at h))
  ]

  -- Whatever URL a context is moved to, a move that succeeds ends on the path of that URL and, with a
  -- base URL set, on a path that begins with the base's path.
  pub set_url-IsConfined :
      (now : String) (url : Text) (c c' : Navigator)
      → (set_url host now url c).1 ≡ inr c'
      → IsConfined c' × ((p : ParsedUrl) × (parsed host url ≡ some p) × (c'.path ≡ some p.path))
  unfolding set_url move
  set_url-IsConfined now url c c' h = elim (Bool-cases c.is_locked) [
    | inl fixed ↦ absurd (no_move context_locked c' (rw (fixed, set_url) at h))
    | inr free ↦ elim (Option-cases (parsed host url)) [
      | inl broken ↦ absurd (no_move invalid_url c' (rw (free, broken, set_url) at h))
      | inr (p, parses) ↦ elim (Sum-cases (is_allowed host c.base_url p.path)) [
        | inr (e, bad) ↦ absurd (no_move e c' (rw (free, parses, bad, set_url) at h))
        | inl (false, outside) ↦
            absurd (no_move outside_base c' (rw (free, parses, outside, set_url) at h))
        | inl (true, inside) ↦
            let (path, base) =
              then_arrive-place now (or_else p.workspace_name c.place.workspace) p c c'
                (depart host (or_else p.workspace_name c.place.workspace) p.path c)
                (rw (free, parses, inside, set_url) at h) in
            (
              λ b set.
                  let (q, known, starts) =
                    allowed-base c.base_url p.path b inside (ap deep (sym base) ∙ set) in
                  (q, known, (p.path, path, starts)),
              (p, parses, path),
            )
      ]
    ]
  ]
