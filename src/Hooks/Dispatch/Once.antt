-- ===== src/Hooks/Dispatch/Once.antt =====
-- Which events the dispatch of src/core/workspace/services/hook/index.js takes for echoes of a batch, and
-- which for duplicates.
use canvas_server.Prelude.{
  arith, ℕ, ◌+◌, ◌-◌, ◌<◌, ◌≡◌, ◌≢◌, refl, sym, ◌∙◌, ◌⊎◌, inl, inr, ◌↔◌, Bool, true, false, ◌&&◌,
  ◌||◌, Option, none, some, [], ◌∷◌, String, ◌==◌, eq_iff, Text, text_eq, text_eq_iff, ltb, is_some,
  lookup, insert, lookup-insert, text_key, All, Bool-cases, if◌then◌else◌,
}
use canvas_server.Hooks.Dispatch.{Payload, Recent, pruned, duplicate_of, is_batch_echo}

-- The event is not the singular one of a batch.
abbrev pub IsNoEcho : String → Payload → Type 0
IsNoEcho event p =
    ((event ≢ "document.inserted") × (event ≢ "document.updated")) ⊎ (p.batch ≡ false)

-- No event with the key was recorded within the last second.
abbrev pub IsNew : ℕ → Text → Recent → Type 0
IsNew now key = All (λ (e : Text × ℕ). (e.0 ≢ key) ⊎ (e.1 + 1000 < now))

-- The event has no key, or it is a new one.
abbrev pub IsFresh : ℕ → Option Text → Recent → Type 0
IsFresh now none recent = Unit
IsFresh now (some key) recent = IsNew now key recent

-- The event's key, if it has one, is on record with its time.
abbrev pub IsOnRecord : ℕ → Option Text → Recent → Type 0
IsOnRecord now none recent = Unit
IsOnRecord now (some key) recent = lookup key recent ≡ some now

false-ne-true : ◌≢◌ {A = Bool} false true
false-ne-true e = cc

not_same : (s t : String) → s ≢ t → s == t ≡ false
not_same s t h = elim (Bool-cases (s == t)) [
  | inl same ↦ absurd (h ((eq_iff s t).0 same))
  | inr other ↦ other
]

differ : (s t : String) → s == t ≡ false → s ≢ t
differ s t h e = false-ne-true (sym h ∙ (eq_iff s t).1 e)

either_false : (a b c : Bool) → ((a || b) && c) ≡ false → ((a ≡ false) × (b ≡ false)) ⊎ (c ≡ false)
either_false true b false h = inr refl
either_false true b true h = cc
either_false false true false h = inr refl
either_false false true true h = cc
either_false false false c h = inl (refl, refl)

pub is_batch_echo_iff :
    (event : String) (p : Payload) → (is_batch_echo event p ≡ false) ↔ IsNoEcho event p
unfolding is_batch_echo
is_batch_echo_iff event p = (
  λ h. elim (either_false (event == "document.inserted") (event == "document.updated") p.batch h) [
    | inl (a, b) ↦ inl (differ event "document.inserted" a, differ event "document.updated" b)
    | inr c ↦ inr c
  ],
  λ h. elim h [
    | inl (a, b) ↦
        rw (not_same event "document.inserted" a, not_same event "document.updated" b) refl
    | inr c ↦ rw c (ground arith)
  ],
)

-- An entry counts if it is not pruned and has the key.
lookup-pruned :
    (now : ℕ) (key : Text) (recent : Recent)
    → (is_some (lookup key (pruned now recent)) ≡ false) ↔ IsNew now key recent
unfolding pruned lookup
lookup-pruned now key [] = (λ h. tt, λ h. refl)
lookup-pruned now key ((j, t) ∷ recent) = elim (Bool-cases (ltb 1000 (now - t))) [
  | inl old ↦
      let late : t + 1000 < now = ground (arith, old) in
      (
        λ h. (inr late, (lookup-pruned now key recent).0 (rw old at h)),
        λ h. rw old ((lookup-pruned now key recent).1 h.1),
      )
  | inr young ↦ elim (Bool-cases (text_eq j key)) [
    | inl own ↦ (
      λ h. absurd (false-ne-true (sym (rw (young, own) at h))),
      λ h. elim h.0 [
        | inl other ↦ absurd (other ((text_eq_iff j key).0 own))
        | inr late ↦ absurd (ground (arith, young, late))
      ],
    )
    | inr other ↦ (
      λ h. (
        inl (λ e. false-ne-true (sym other ∙ (text_eq_iff j key).1 e)),
        (lookup-pruned now key recent).0 (rw (young, other) at h),
      ),
      λ h. rw (young, other) ((lookup-pruned now key recent).1 h.1),
    )
  ]
]

-- The test on a key: what it answers, and what it leaves on record when it lets the event through.
abbrev test_key : ℕ → Text → Recent → Bool × Recent
test_key now key kept =
    if is_some (lookup key kept) then (true, kept) else (false, insert key now kept)

test_key_flag :
    (now : ℕ) (key : Text) (kept : Recent) → (test_key now key kept).0 ≡ is_some (lookup key kept)
test_key_flag now key kept = elim (Bool-cases (is_some (lookup key kept))) [
  | inl seen ↦ rw seen refl
  | inr unseen ↦ rw unseen refl
]

test_key_record :
    (now : ℕ) (key : Text) (kept : Recent)
    → (test_key now key kept).0 ≡ false
    → lookup key (test_key now key kept).1 ≡ some now
test_key_record now key kept h =
    let unseen = sym (test_key_flag now key kept) ∙ h in
    rw unseen (lookup-insert key key now kept ∙ rw ((text_eq_iff key key).1 refl) refl)

pub duplicate_of_iff :
    (now : ℕ) (key : Option Text) (recent : Recent)
    → ((duplicate_of now key recent).0 ≡ false) ↔ IsFresh now key recent
unfolding duplicate_of
duplicate_of_iff now none recent = (λ h. tt, λ h. refl)
duplicate_of_iff now (some key) recent =
    let counts = lookup-pruned now key recent in
    let flag = test_key_flag now key (pruned now recent) in
    (λ h. counts.0 (sym flag ∙ h), λ h. flag ∙ counts.1 h)

pub duplicate_of-record :
    (now : ℕ) (key : Option Text) (recent : Recent)
    → (duplicate_of now key recent).0 ≡ false
    → IsOnRecord now key (duplicate_of now key recent).1
unfolding duplicate_of
duplicate_of-record now none recent h = tt
duplicate_of-record now (some key) recent h = test_key_record now key (pruned now recent) h
