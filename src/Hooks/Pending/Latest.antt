-- ===== src/Hooks/Pending/Latest.antt =====
-- What `query` of src/core/workspace/services/hook/pending-actions.js lists is what `get` returns.
use mathlib.Core.Path.{subst}
use mathlib.Core.List.{Memᴰ}
use canvas_server.Prelude.{
  ℕ, ◌-◌, ◌≡◌, ◌≢◌, refl, sym, ap, ◌∙◌, inl, inr, Bool, true, false, ◌||◌, Option, none, some, List,
  [], ◌∷◌, arith, Text, text_eq, text_eq_iff, any, nat_eq, if◌then◌else◌, Bool-cases,
}
use canvas_server.Hooks.Pending.{
  Proposal, Store, view, first_with, newest_first, get, latest, Filter, is_wanted, collect,
  limit_of, query,
}
use canvas_server.Hooks.Pending.Found.{IsUnescaped, is_of_plain}

-- The first record of an id, whatever its line is.
first_named : Text → List Proposal → Option Proposal
first_named id [] = none
first_named id (p ∷ ps) = if text_eq p.action_id id then some p else first_named id ps

first_with-named :
    (other_fields : Proposal → Text) (id : Text) (ps : List Proposal)
    → IsUnescaped id
    → first_with other_fields id ps ≡ first_named id ps
unfolding first_with first_named
first_with-named other_fields id [] h = refl
first_with-named other_fields id (p ∷ ps) h =
    rw (is_of_plain other_fields id p h, first_with-named other_fields id ps h) refl

false-ne-true : ◌≢◌ {A = Bool} false true
false-ne-true e = cc

differs :
    (id : Text) (seen : List Text) (p : Proposal)
    → text_eq id [] ≡ false
    → any (λ i. text_eq i id) seen ≡ false
    → (text_eq p.action_id [] || any (λ i. text_eq i p.action_id) seen) ≡ true
    → text_eq p.action_id id ≡ false
differs id seen p named fresh skipped = elim (Bool-cases (text_eq p.action_id id)) [
  | inr other ↦ other
  | inl own ↦ absurd (
      false-ne-true (
        sym (
          subst (λ x. (text_eq x [] || any (λ i. text_eq i x) seen) ≡ false)
            (sym ((text_eq_iff p.action_id id).0 own)) (rw (named, fresh)))
        ∙ skipped))
]

-- What `latest` lists of an id that was not met before is its first record.
first_named-latest :
    (id : Text) (seen : List Text) (ps : List Proposal)
    → text_eq id [] ≡ false
    → any (λ i. text_eq i id) seen ≡ false
    → first_named id (latest seen ps) ≡ first_named id ps
unfolding first_named latest
first_named-latest id seen [] named fresh = refl
first_named-latest id seen (p ∷ ps) named fresh =
    elim (Bool-cases (text_eq p.action_id [] || any (λ i. text_eq i p.action_id) seen)) [
      | inl skipped ↦
          rw (skipped, differs id seen p named fresh skipped)
            (first_named-latest id seen ps named fresh)
      | inr listed ↦ elim (Bool-cases (text_eq p.action_id id)) [
        | inl own ↦ rw (listed, own)
        | inr other ↦
            rw (listed, other)
              (first_named-latest id (p.action_id ∷ seen) ps named (rw (other, fresh)))
      ]
    ]

neither : (a b : Bool) → (a || b) ≡ false → (a ≡ false) × (b ≡ false)
neither a b h = ground arith

-- Each record that is listed has an id, and is the first of its id.
latest-first :
    (p : Proposal) (seen : List Text) (ps : List Proposal)
    → Memᴰ p (latest seen ps)
    → (first_named p.action_id ps ≡ some p)
      × (text_eq p.action_id [] ≡ false)
      × (any (λ i. text_eq i p.action_id) seen ≡ false)
unfolding latest first_named
latest-first p seen [] m = elim m [ ]
latest-first p seen (q ∷ ps) m =
    elim (Bool-cases (text_eq q.action_id [] || any (λ i. text_eq i q.action_id) seen)) [
      | inl skipped ↦
          let (first, named, fresh) = latest-first p seen ps (rw skipped at m) in
          (rw (differs p.action_id seen q named fresh skipped) first, named, fresh)
      | inr listed ↦
          listed_first (λ m'. latest-first p (q.action_id ∷ seen) ps m') (rw listed at m) listed
    ]
  where
    listed_first :
        (Memᴰ p (latest (q.action_id ∷ seen) ps)
          → (first_named p.action_id ps ≡ some p)
            × (text_eq p.action_id [] ≡ false)
            × (any (λ i. text_eq i p.action_id) (q.action_id ∷ seen) ≡ false))
        → Memᴰ p (q ∷ latest (q.action_id ∷ seen) ps)
        → (text_eq q.action_id [] || any (λ i. text_eq i q.action_id) seen) ≡ false
        → (first_named p.action_id (q ∷ ps) ≡ some p)
          × (text_eq p.action_id [] ≡ false)
          × (any (λ i. text_eq i p.action_id) seen ≡ false)
    listed_first later (Memᴰ.head e) h =
        subst
          (λ x.
            (first_named x.action_id (q ∷ ps) ≡ some x)
            × (text_eq x.action_id [] ≡ false)
            × (any (λ i. text_eq i x.action_id) seen ≡ false))
          (sym e)
          (rw ((text_eq_iff q.action_id q.action_id).1 refl), (neither _ _ h).0, (neither _ _ h).1)
    listed_first later (Memᴰ.tail m') h =
        let (first, named, fresh) = later m' in
        let other : text_eq q.action_id p.action_id ≡ false = (neither _ _ fresh).0 in
        (rw other first, named, (neither _ _ fresh).1)

-- A proposal that is listed is the view of one of the records, and is wanted.
record IsListed (now : ℕ) (f : Filter) (v : Proposal) (ps : List Proposal) : Type 0 where
  source : Proposal
  there : Memᴰ source ps
  seen_as : v ≡ view now source
  wanted : is_wanted f v ≡ true

collect-IsListed :
    (now : ℕ) (f : Filter) (n : ℕ) (ps : List Proposal) (v : Proposal)
    → Memᴰ v (collect now f n ps)
    → IsListed now f v ps
unfolding collect
collect-IsListed now f n [] v m = elim m [ ]
collect-IsListed now f n (p ∷ ps) v m = elim (Bool-cases (nat_eq n 0)) [
  | inl full ↦ elim (rw full at m) [ ]
  | inr unfilled ↦ elim (Bool-cases (is_wanted f (view now p))) [
    | inl taken ↦
        taken_first (λ m'. collect-IsListed now f (n - 1) ps v m') (rw (unfilled, taken) at m) taken
    | inr left ↦
        let h = collect-IsListed now f n ps v (rw (unfilled, left) at m) in
        record {
          source = h.source;
          there = Memᴰ.tail h.there;
          seen_as = h.seen_as;
          wanted = h.wanted;
        }
  ]
]
  where
    taken_first :
        (Memᴰ v (collect now f (n - 1) ps) → IsListed now f v ps)
        → Memᴰ v (view now p ∷ collect now f (n - 1) ps)
        → is_wanted f (view now p) ≡ true
        → IsListed now f v (p ∷ ps)
    taken_first later (Memᴰ.head e) w = record {
      source = p;
      there = Memᴰ.head refl;
      seen_as = e;
      wanted = subst (λ x. is_wanted f x ≡ true) (sym e) w;
    }
    taken_first later (Memᴰ.tail m') w =
        let h = later m' in
        record {
          source = h.source;
          there = Memᴰ.tail h.there;
          seen_as = h.seen_as;
          wanted = h.wanted;
        }

-- The list and the single lookup agree: whatever `query` lists passes the filter, and is the
-- current state of its action, the one that `get` returns, if the action's id holds no quote,
-- backslash, control character or surrogate, which JSON may write as something else.
pub query-get :
    (other_fields : Proposal → Text) (now : ℕ) (f : Filter) (s : Store) (v : Proposal)
    → IsUnescaped v.action_id
    → Memᴰ v (query now f s)
    → (get other_fields now v.action_id s ≡ some v) × (is_wanted f v ≡ true)
unfolding query get
query-get other_fields now f s v plain m =
    let h = collect-IsListed now f (limit_of f.limit) (latest [] (newest_first s)) v m in
    let (first, named, fresh) = latest-first h.source [] (newest_first s) h.there in
    let same : h.source.action_id ≡ v.action_id = sym (ap (λ x. x.action_id) h.seen_as) in
    let own : first_with other_fields h.source.action_id (newest_first s) ≡ some h.source =
      first_with-named other_fields h.source.action_id (newest_first s)
        (subst IsUnescaped (sym same) plain)
      ∙ first in
    (
      subst (λ x. get other_fields now x.action_id s ≡ some x) (sym h.seen_as) (rw (named, own)),
      h.wanted,
    )
