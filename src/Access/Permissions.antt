-- ===== src/Access/Permissions.antt =====
-- The permissions of src/core/workspace/lib/access.js and their normal form.
pub mod Canonical
use canvas_server.Prelude.{
  ℕ, Bool, true, false, ◌||◌, not, Option, none, some, List, [], ◌∷◌, ◌++◌, String, Text, codes,
  text_eq, or_else, leb, any, if◌then◌else◌, Casing, folded,
}

-- `WORKSPACE_PERMISSIONS`
pub data Permission : Type 0 where
  read write admin : Permission

abbrev pub word : Permission → Text
word read = codes "read"
word write = codes "write"
word admin = codes "admin"

-- `OWNER_PERMISSIONS`
abbrev pub owner_permissions : List Permission
owner_permissions = read ∷ write ∷ admin ∷ []

-- `WORKSPACE_PERMISSIONS.indexOf(p)`
abbrev pub index_of : Permission → ℕ
index_of read = 0
index_of write = 1
index_of admin = 2

abbrev pub same_permission : Permission → Permission → Bool
same_permission read read = true
same_permission write write = true
same_permission admin admin = true
same_permission _ _ = false

-- `list.includes(p)`
abbrev pub holds : List Permission → Permission → Bool
holds ps p = any (λ q. same_permission q p) ps

-- The permissions of a stored grant: one value or an array, each possibly absent or not a
-- permission.
pub data Spec : Type 0 where
  single : Option Text → Spec
  several : List (Option Text) → Spec

abbrev pub entries : Spec → List (Option Text)
entries (single p) = p ∷ []
entries (several ps) = ps

-- A word of `WORKSPACE_PERMISSIONS`, if it is one.
abbrev pub known : Text → Option Permission
known s =
    if text_eq s (codes "read")
    then some read
    else if text_eq s (codes "write")
    then some write
    else if text_eq s (codes "admin")
    then some admin
    else none

-- The set's first occurrences, in order: `[...new Set(out)]`.
abbrev pub drop_same : Permission → List Permission → List Permission
drop_same p [] = []
drop_same p (q ∷ qs) = let rest = drop_same p qs in if same_permission q p then rest else q ∷ rest

abbrev pub unique : List Permission → List Permission
unique [] = []
unique (p ∷ ps) = p ∷ drop_same p (unique ps)

-- A stable sort by `WORKSPACE_PERMISSIONS.indexOf`.
abbrev pub place : Permission → List Permission → List Permission
place p [] = p ∷ []
place p (q ∷ qs) = if leb (index_of p) (index_of q) then p ∷ q ∷ qs else q ∷ place p qs

abbrev pub sorted : List Permission → List Permission
sorted [] = []
sorted (p ∷ ps) = place p (sorted ps)

-- The pushes: `admin` implies `read` and `write`, `write` implies `read`.
abbrev pub widened : List Permission → List Permission
widened out =
    let out' = if holds out admin then out ++ read ∷ write ∷ [] else out in
    if holds out' write then out' ++ read ∷ [] else out'

module _ (u : Casing) where
  -- The trimmed and lower-cased entries that are permissions.
  unfoldable pub parsed : List (Option Text) → List Permission
  parsed [] = []
  parsed (p ∷ ps) = elim (known (folded u (or_else p []))) [
    | none ↦ parsed ps
    | some q ↦ q ∷ parsed ps
  ]

  unfoldable pub normalize_permissions : Spec → List Permission
  normalize_permissions spec = sorted (unique (widened (parsed (entries spec))))
