-- ===== src/Context/Navigation/Locks.antt =====
-- The locks that a context holds on the paths of trees: `setUrl` of src/core/context/lib/Context.js.
use mathlib.Core.Path.{subst}
use canvas_server.Prelude.{
  ◌≡◌, ◌≢◌, refl, sym, ap, ◌∙◌, inl, inr, ◌⊎◌, Bool, true, false, not, ◌||◌, ◌&&◌, Option, none,
  some, List, [], ◌∷◌, ◌++◌, String, ◌==◌, or_else, Text, text_eq, text_eq_iff, Bool-cases,
  Option-cases, Sum-cases, none-ne-some, inr-inj,
}
use canvas_server.Context.Url.{ParsedUrl}
use canvas_server.Context.Navigation.{
  Place, Navigator, Effect, unlocked, locked, NavigationError, context_locked, invalid_url,
  outside_base, other_workspace, insert_failed, Host, is_root, deep, parsed, is_allowed,
  unlock_effect, vacated, depart, arrive, then_arrive, move, set_url,
}

abbrev pub same_place : Place → Place → Bool
same_place a b = text_eq a.workspace b.workspace && a.tree == b.tree

-- Which paths are locked by the context.
abbrev pub Held : Type 0
Held = Place → Text → Bool

abbrev pub after : List Effect → Held → Held
after [] h = h
after (locked place p ∷ es) h = after es (λ x q. (same_place place x && text_eq p q) || h x q)
after (unlocked place p ∷ es) h = after es (λ x q. not (same_place place x && text_eq p q) && h x q)

-- The lock that a path in a tree asks for.
abbrev pub lock_of : Option Text → Place → Held
lock_of path place x q = elim (deep path) [
  | none ↦ false
  | some p ↦ same_place place x && text_eq p q
]

-- The context holds the lock on its own path, and no other.
abbrev pub IsExact : Navigator → Held → Type 0
IsExact c h = (x : Place) (q : Text) → h x q ≡ lock_of c.path c.place x q

after-append : (es fs : List Effect) (h : Held) → after (es ++ fs) h ≡ after fs (after es h)
after-append [] fs h = refl
after-append (locked place p ∷ es) fs h = after-append es fs _
after-append (unlocked place p ∷ es) fs h = after-append es fs _

no_move : (e : NavigationError) (c' : Navigator) → inl e ≢ inr c'
no_move e c' h = cc

-- Nothing is held but, perhaps, the lock that the path asks for.
abbrev IsBelow : Held → Option Text → Place → Type 0
IsBelow h path place = (x : Place) (q : Text) → h x q ≡ true → lock_of path place x q ≡ true

deep-some : (o : Option Text) (p : Text) → deep o ≡ some p → o ≡ some p
deep-some none p h = cc
deep-some (some []) p h = cc
deep-some (some (c ∷ s)) p h = elim (Bool-cases (is_root (c ∷ s))) [
  | inl root ↦ absurd (none-ne-some (rw root at h))
  | inr below ↦ rw below at h
]

under : (a b : Bool) → (a ≡ true → b ≡ true) → (b || a) ≡ b
under true true h = refl
under true false h = sym (h refl)
under false true h = refl
under false false h = refl

never : (a : Bool) → (a ≡ true → false ≡ true) → a ≡ false
never true h = sym (h refl)
never false h = refl

false-ne-true : ◌≢◌ {A = Bool} false true
false-ne-true e = cc

no_place : (e : NavigationError) (place : Place) → inl e ≢ inr place
no_place e place h = cc

gone : (a b : Bool) → b ≡ a → (not a && b) ≡ true → false ≡ true
gone true b h k = k
gone false b h k = sym h ∙ k

module _ (host : Host) (unlocks : (place : Place) (p : Text) → host.unlock_path place p ≡ true)
    (locks : (place : Place) (p : Text) → host.lock_path place p ≡ true) where
  arrive-IsExact :
      (now : String) (target : Text) (p : ParsedUrl) (place : Place) (c c' : Navigator) (h : Held)
      → IsBelow h (some p.path) place
      → (arrive host now target p place c).1 ≡ inr c'
      → IsExact c' (after (arrive host now target p place c).0 h)
  unfolding arrive
  arrive-IsExact now target p place c c' h below e =
      elim (Bool-cases (host.insert_path place p.path)) [
        | inr failed ↦ absurd (no_move insert_failed c' (rw (failed, arrive) at e))
        | inl inserted ↦
            subst (λ y. IsExact y (after (arrive host now target p place c).0 h))
              (inr-inj (rw (inserted, arrive) at e))
              (λ x q.
                let asked : h x q ≡ true → lock_of (some p.path) place x q ≡ true = below x q in
                elim (Option-cases (deep (some p.path))) [
                  | inl root ↦
                      rw (inserted, root, arrive, lock_of)
                        (never (h x q) (rw (root, lock_of) at asked))
                  | inr (d, at) ↦
                      rw (inserted, at, locks place d, arrive, lock_of)
                        (under (h x q) (same_place place x && text_eq d q)
                          (rw (at, lock_of) at asked))
                ])
      ]

  unlock-IsBelow :
      (c : Navigator) (h : Held) (path : Option Text) (place : Place)
      → IsExact c h
      → IsBelow (after (unlock_effect host c.place (deep c.path)) h) path place
  unfolding unlock_effect
  unlock-IsBelow c h path place exact x q k =
      let now_held : h x q ≡ lock_of c.path c.place x q = exact x q in
      elim (Option-cases (deep c.path)) [
        | inl root ↦
            absurd (
              false-ne-true
                (sym (rw (root, lock_of) at now_held) ∙ (rw (root, unlock_effect) at k)))
        | inr (d, at) ↦ absurd (
            false-ne-true (
              gone (same_place c.place x && text_eq d q) (h x q) (rw (at, lock_of) at now_held)
                (rw (at, unlocks c.place d, unlock_effect) at k)))
      ]

  -- Moving within a workspace and its tree.
  stay-IsBelow :
      (c : Navigator) (h : Held) (path : Text)
      → IsExact c h
      → IsBelow
          (after (unlock_effect host c.place (vacated host c.path path)) h)
          (some path)
          c.place
  unfolding unlock_effect
  stay-IsBelow c h path exact x q k =
      let now_held : h x q ≡ lock_of c.path c.place x q = exact x q in
      elim (Option-cases (deep c.path)) [
        | inl root ↦
            absurd (
              false-ne-true
                (sym (rw (root, lock_of) at now_held) ∙ (rw (root, unlock_effect) at k)))
        | inr (d, at) ↦ elim (Bool-cases (text_eq d path)) [
          | inl same ↦
              let e : c.path ≡ some path =
                deep-some c.path d at ∙ ap some ((text_eq_iff d path).0 same) in
              subst (λ o. lock_of o c.place x q ≡ true) e
                (sym now_held ∙ (rw (at, same, unlock_effect) at k))
          | inr moved ↦ absurd (
              false-ne-true (
                gone (same_place c.place x && text_eq d q) (h x q) (rw (at, lock_of) at now_held)
                  (rw (at, moved, unlocks c.place d, unlock_effect) at k)))
        ]
      ]

  depart-IsBelow :
      (target path : Text) (c : Navigator) (h : Held) (place : Place)
      → IsExact c h
      → (depart host target path c).1 ≡ inr place
      → IsBelow (after (depart host target path c).0 h) (some path) place
  unfolding depart
  depart-IsBelow target path c h place exact e =
      elim (Bool-cases (text_eq target c.place.workspace)) [
        | inl here ↦
            let there : c.place ≡ place = inr-inj (rw (here, depart) at e) in
            rw (here, depart)
              (subst
                (IsBelow (after (unlock_effect host c.place (vacated host c.path path)) h)
                  (some path))
                there (stay-IsBelow c h path exact))
        | inr away ↦ elim (Bool-cases c.is_universe) [
          | inr bound ↦ absurd (no_place other_workspace place (rw (away, bound, depart) at e))
          | inl free ↦ rw (away, free, depart) (unlock-IsBelow c h (some path) place exact)
        ]
      ]

  then_arrive-IsExact :
      (now : String) (target : Text) (p : ParsedUrl) (c c' : Navigator) (h : Held)
      (d : List Effect × (NavigationError ⊎ Place))
      → ((place : Place) → d.1 ≡ inr place → IsBelow (after d.0 h) (some p.path) place)
      → (then_arrive host now target p c d).1 ≡ inr c'
      → IsExact c' (after (then_arrive host now target p c d).0 h)
  then_arrive-IsExact now target p c c' h (es, inl e) below k = absurd (no_move e c' k)
  then_arrive-IsExact now target p c c' h (es, inr place) below k =
      subst (IsExact c') (sym (after-append es (arrive host now target p place c).0 h))
        (arrive-IsExact now target p place c c' (after es h) (below place refl) k)

  -- Where locking and unlocking a path do not fail, a context that holds the lock on its own path
  -- and no other does so again after a `setUrl` that succeeds, within a workspace or to another
  -- one: the old path's lock is given back and the new one's is taken. The root is never locked.
  pub set_url-IsExact :
      (now : String) (url : Text) (c c' : Navigator) (h : Held)
      → IsExact c h
      → (set_url host now url c).1 ≡ inr c'
      → IsExact c' (after (set_url host now url c).0 h)
  unfolding set_url move
  set_url-IsExact now url c c' h exact k = elim (Bool-cases c.is_locked) [
    | inl fixed ↦ absurd (no_move context_locked c' (rw (fixed, set_url) at k))
    | inr free ↦ elim (Option-cases (parsed host url)) [
      | inl broken ↦ absurd (no_move invalid_url c' (rw (free, broken, set_url) at k))
      | inr (p, parses) ↦ elim (Sum-cases (is_allowed host c.base_url p.path)) [
        | inr (e, bad) ↦ absurd (no_move e c' (rw (free, parses, bad, set_url) at k))
        | inl (false, outside) ↦
            absurd (no_move outside_base c' (rw (free, parses, outside, set_url) at k))
        | inl (true, inside) ↦
            let target : Text = or_else p.workspace_name c.place.workspace in
            rw (free, parses, inside, set_url)
              (then_arrive-IsExact now target p c c' h (depart host target p.path c)
                (λ place e. depart-IsBelow target p.path c h place exact e)
                (rw (free, parses, inside, set_url) at k))
      ]
    ]
  ]
