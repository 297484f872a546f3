-- ===== src/Hooks/Pending/Written.antt =====
-- What `get` of src/core/workspace/services/hook/pending-actions.js reads after an append.
use mathlib.Core.List.{reverse, reverse-append, append-nil}
use canvas_server.Prelude.{
  ℕ, ◌≡◌, refl, sym, ap, ◌∙◌, inl, inr, Bool, true, false, ◌&&◌, Option, none, some, List, [], ◌∷◌,
  ◌++◌, Text, text_eq, is_some, or_else, if◌then◌else◌, Bool-cases,
}
use canvas_server.Hooks.Pending.{
  Proposal, Store, Disk, view, is_full, after_rename, rotate_if_needed, appended, append,
  first_with, newest_first, get,
}
use canvas_server.Hooks.Pending.Found.{IsUnescaped, is_of_plain}

-- The records of the live file alone.
abbrev pub live_only : Store → Store
live_only s = record { live = s.live; rotated = []; size = s.size }

newest_first-after_rename :
    (renames : Bool) (s : Store) (live : Option (List Proposal))
    → s.live ≡ live
    → newest_first (after_rename renames s live)
      ≡ (if is_some live && renames then newest_first (live_only s) else newest_first s)
newest_first-after_rename true s (some ps) e = rw e (sym (append-nil (reverse ps)))
newest_first-after_rename false s (some ps) e = refl
newest_first-after_rename true s none e = refl
newest_first-after_rename false s none e = refl

newest_first-appended :
    (other_fields : Proposal → Text) (max_bytes : ℕ) (ok : Bool) (p : Proposal) (s : Store)
    → newest_first (appended other_fields max_bytes ok p s).0
      ≡ (if ok then p ∷ newest_first s else newest_first s)
newest_first-appended other_fields max_bytes true p s =
    ap (λ xs. xs ++ reverse s.rotated) (reverse-append (or_else s.live []) (p ∷ []))
newest_first-appended other_fields max_bytes false p s = refl

newest_first-if :
    (b : Bool) (x y : Store × Bool)
    → newest_first (if b then x else y).0 ≡ (if b then newest_first x.0 else newest_first y.0)
newest_first-if true x y = refl
newest_first-if false x y = refl

guarded-if :
    (a b c : Bool) (p : Proposal) (xs ys : List Proposal)
    → (if a then (if b then p ∷ (if c then xs else ys) else (if c then xs else ys)) else ys)
      ≡ (if a && b then p ∷ (if a && c then xs else ys) else (if a && c then xs else ys))
guarded-if true b c p xs ys = refl
guarded-if false b c p xs ys = refl

abbrev read : ℕ → Option Proposal → Option Proposal
read now o = elim o [ none ↦ none | some p ↦ some (view now p) ]

read-if :
    (b : Bool) (now : ℕ) (p : Proposal) (o : Option Proposal)
    → read now (if b then some p else o) ≡ (if b then some (view now p) else read now o)
read-if true now p o = refl
read-if false now p o = refl

module _ (other_fields : Proposal → Text) (max_bytes : ℕ) where
  -- The live file takes the place of the rotated one.
  abbrev pub moves : Disk → Proposal → Store → Bool
  moves disk p s = is_full other_fields max_bytes p s && (is_some s.live && disk.renames)

  newest_first-rotate :
      (disk : Disk) (p : Proposal) (s : Store)
      → newest_first (rotate_if_needed other_fields max_bytes disk p s)
        ≡ (if moves disk p s then newest_first (live_only s) else newest_first s)
  unfolding rotate_if_needed
  newest_first-rotate disk p s = elim (Bool-cases (is_full other_fields max_bytes p s)) [
    | inl full ↦ rw full (newest_first-after_rename disk.renames s s.live refl)
    | inr fits ↦ rw fits refl
  ]

  -- What is left to be read of the records before.
  abbrev kept : Disk → Proposal → Store → List Proposal
  kept disk p s =
      if disk.makes_dir && moves disk p s then newest_first (live_only s) else newest_first s

  newest_first-append :
      (disk : Disk) (p : Proposal) (s : Store)
      → newest_first (append other_fields max_bytes disk p s).0
        ≡ (if disk.makes_dir && disk.appends then p ∷ kept disk p s else kept disk p s)
  unfolding append
  newest_first-append disk p s =
      newest_first-if disk.makes_dir _ _
      ∙ ap (λ xs. if disk.makes_dir then xs else newest_first s)
          (newest_first-appended other_fields max_bytes disk.appends p
              (rotate_if_needed other_fields max_bytes disk p s)
            ∙ ap (λ xs. if disk.appends then p ∷ xs else xs) (newest_first-rotate disk p s))
      ∙ guarded-if disk.makes_dir disk.appends (moves disk p s) p (newest_first (live_only s))
          (newest_first s)

  appended-flag :
      (ok : Bool) (p : Proposal) (s : Store) → (appended other_fields max_bytes ok p s).1 ≡ ok
  appended-flag true p s = refl
  appended-flag false p s = refl

  append-flag :
      (disk : Disk) (p : Proposal) (s : Store)
      → (append other_fields max_bytes disk p s).1 ≡ (disk.makes_dir && disk.appends)
  unfolding append
  append-flag disk p s = elim (Bool-cases disk.makes_dir) [
    | inr fails ↦ rw fails refl
    | inl made ↦ rw made (appended-flag disk.appends p _)
  ]

  abbrev current : ℕ → Text → List Proposal → Option Proposal
  current now id ps = read now (first_with other_fields id ps)

  get-current :
      (now : ℕ) (id : Text) (s : Store)
      → text_eq id [] ≡ false
      → get other_fields now id s ≡ current now id (newest_first s)
  unfolding get
  get-current now id s named = rw named refl

  current-cons :
      (ok : Bool) (now : ℕ) (id : Text) (p : Proposal) (ps : List Proposal)
      → IsUnescaped id
      → current now id (if ok then p ∷ ps else ps)
        ≡ (if ok && text_eq p.action_id id then some (view now p) else current now id ps)
  unfolding first_with
  current-cons false now id p ps plain = refl
  current-cons true now id p ps plain =
      ap (λ b. read now (if b then some p else first_with other_fields id ps))
        (is_of_plain other_fields id p plain)
      ∙ read-if (text_eq p.action_id id) now p _

  current-if :
      (b : Bool) (now : ℕ) (id : Text) (xs ys : List Proposal)
      → current now id (if b then xs else ys) ≡ (if b then current now id xs else current now id ys)
  current-if true now id xs ys = refl
  current-if false now id xs ys = refl

  -- Appending a record says whether the file system has taken it. If it has, the record is read
  -- back at once as the state of its action, whatever was written for that action before. Every
  -- other action, and every action if the append has failed, reads as before, unless the record did
  -- not fit into the live file and that was there and was renamed: then only the records of the
  -- live file are kept. The id that is read holds no quote, backslash, control character or
  -- surrogate.
  pub get-append :
      (disk : Disk) (p : Proposal) (s : Store) (now : ℕ) (id : Text)
      → text_eq id [] ≡ false
      → IsUnescaped id
      → ((append other_fields max_bytes disk p s).1 ≡ (disk.makes_dir && disk.appends))
        × (get other_fields now id (append other_fields max_bytes disk p s).0 ≡ (
            if disk.makes_dir && disk.appends && text_eq p.action_id id
            then some (view now p)
            else if disk.makes_dir && moves disk p s
            then get other_fields now id (live_only s)
            else get other_fields now id s))
  get-append disk p s now id named plain = (
    append-flag disk p s,
    rw (get-current now id s named, get-current now id (live_only s) named)
        (get-current now id (append other_fields max_bytes disk p s).0 named
          ∙ ap (current now id) (newest_first-append disk p s)
          ∙ current-cons (disk.makes_dir && disk.appends) now id p (kept disk p s) plain
          ∙ ap
              (λ o.
                if disk.makes_dir && disk.appends && text_eq p.action_id id
                then some (view now p)
                else o)
              (current-if (disk.makes_dir && moves disk p s) now id _ _)),
  )
