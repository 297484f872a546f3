-- ===== src/Context/Navigation.antt =====
-- Moving a context: `setUrl` to `unlock` and `#switchWorkspace` of src/core/context/lib/Context.js.
-- What the calls of the workspace and its tree do is the record `Host`; the calls that succeed on the
-- tree's path locks are written down as effects, in order.
pub mod Confined
pub mod Locks
use canvas_server.Prelude.{
  ℕ, Bool, true, false, ◌||◌, ◌&&◌, not, Option, none, some, List, [], ◌∷◌, ◌++◌, ◌⊎◌, inl, inr,
  Text, codes, text_eq, or_else, starts_with, String, if◌then◌else◌,
}
use canvas_server.Context.Url.{ParsedUrl, parse_url, without_slash}

pub record Tree : Type 0 where
  pub id : String
  pub is_directory : Bool

pub record Place : Type 0 where
  pub workspace : Text
  pub tree : String

-- What a context keeps that moving it reads and changes.
pub record Navigator : Type 0 where
  pub is_locked : Bool
  pub is_universe : Bool
  pub base_url : Option Text
  pub url : Option Text
  pub path : Option Text
  pub path_array : List Text
  pub bitmaps : List Text
  pub place : Place
  pub updated_at : String

pub data Effect : Type 0 where
  unlocked locked : Place → Text → Effect

pub data NavigationError : Type 0 where
  context_locked invalid_url outside_base other_workspace workspace_not_found switch_failed
        insert_failed no_tree :
      NavigationError

-- The awaited calls. A call that fails is false or none.
pub record Host : Type 0 where
  pub is_letter : ℕ → Bool
  pub unlock_path : Place → Text → Bool
  pub lock_path : Place → Text → Bool
  pub insert_path : Place → Text → Bool
  pub has_workspace : Text → Bool
  pub open_workspace : Text → Bool
  pub find_tree : Text → String → Option Tree
  pub directory_tree : Text → String → Option String
  pub default_tree : Text → String
  pub context_tree : Text → String → Option String

abbrev pub is_root : Text → Bool
is_root p = text_eq p (codes "/")

-- `path && path !== '/'`
abbrev pub deep : Option Text → Option Text
deep none = none
deep (some []) = none
deep (some (c ∷ p)) = if is_root (c ∷ p) then none else some (c ∷ p)

module _ (host : Host) where
  abbrev pub parsed : Text → Option ParsedUrl
  parsed url = parse_url host.is_letter url

  -- The check against the base URL.
  unfoldable pub is_allowed : Option Text → Text → Bool ⊎ NavigationError
  is_allowed base path = elim (deep base) [
    | none ↦ inl true
    | some b ↦ elim (parsed b) [ none ↦ inr invalid_url | some p ↦ inl (starts_with p.path path) ]
  ]

  -- `unlockPath`, whose failure is only logged
  unfoldable pub unlock_effect : Place → Option Text → List Effect
  unlock_effect place none = []
  unlock_effect place (some p) = if host.unlock_path place p then unlocked place p ∷ [] else []

  -- The tree of the new workspace: the one with the context's tree id, of its kind, else the default.
  unfoldable pub tree_in : Text → String → String
  tree_in name tree = elim (host.find_tree name tree) [
    | none ↦ host.default_tree name
    | some found ↦
        or_else
          (if found.is_directory
            then host.directory_tree name tree
            else host.context_tree name tree)
          (host.default_tree name)
  ]

  -- `#switchWorkspace`
  unfoldable pub switch_workspace : Text → Navigator → NavigationError ⊎ Place
  switch_workspace name c =
      if c.is_locked
      then inl context_locked
      else if not (host.has_workspace name)
      then inl workspace_not_found
      else if not (host.open_workspace name)
      then inl switch_failed
      else inr (record { workspace = name; tree = tree_in name c.place.tree })

  -- The old path that is unlocked where the workspace stays the same.
  abbrev pub vacated : Option Text → Text → Option Text
  vacated old path = elim (deep old) [
    | none ↦ none
    | some p ↦ if text_eq p path then none else some p
  ]

  -- Leaving the old path, and the place of the new one.
  unfoldable pub depart : Text → Text → Navigator → List Effect × (NavigationError ⊎ Place)
  depart target path c =
      if text_eq target c.place.workspace
      then (unlock_effect c.place (vacated c.path path), inr c.place)
      else if not c.is_universe
      then ([], inl other_workspace)
      else (unlock_effect c.place (deep c.path), switch_workspace target c)

  -- Arriving at the new path.
  unfoldable pub arrive :
      String → Text → ParsedUrl → Place → Navigator → List Effect × (NavigationError ⊎ Navigator)
  arrive now target p place c =
      if not (host.insert_path place p.path) then ([], inl insert_failed) else (
        elim (deep (some p.path)) [
          | none ↦ []
          | some path ↦ if host.lock_path place path then locked place path ∷ [] else []
        ],
        inr (record c {
          url = some (target ++ codes "://" ++ without_slash p.path);
          path = some p.path;
          path_array = p.path_array;
          bitmaps = p.path_array;
          place = place;
          updated_at = now;
        }),
      )

  abbrev pub then_arrive :
      String
      → Text
      → ParsedUrl
      → Navigator
      → List Effect × (NavigationError ⊎ Place)
      → List Effect × (NavigationError ⊎ Navigator)
  then_arrive now target p c (es, inl e) = (es, inl e)
  then_arrive now target p c (es, inr place) =
      (es ++ (arrive now target p place c).0, (arrive now target p place c).1)

  -- `setUrl` on an URL that parses and is allowed.
  unfoldable pub move : String → ParsedUrl → Navigator → List Effect × (NavigationError ⊎ Navigator)
  move now p c =
      let target = or_else p.workspace_name c.place.workspace in
      then_arrive now target p c (depart target p.path c)

  unfoldable pub set_url : String → Text → Navigator → List Effect × (NavigationError ⊎ Navigator)
  set_url now url c = if c.is_locked then ([], inl context_locked) else elim (parsed url) [
    | none ↦ ([], inl invalid_url)
    | some p ↦ elim (is_allowed c.base_url p.path) [
      | inr e ↦ ([], inl e)
      | inl false ↦ ([], inl outside_base)
      | inl true ↦ move now p c
    ]
  ]

  -- The current URL does not stand in the way of a new base.
  unfoldable pub fits : ParsedUrl → Navigator → Bool ⊎ NavigationError
  fits base c = elim c.url [
    | none ↦ inl true
    | some [] ↦ inl true
    | some (x ∷ u) ↦ elim (parsed (x ∷ u)) [
      | none ↦ inr invalid_url
      | some current ↦ inl (
          not (text_eq (or_else current.workspace_name c.place.workspace) c.place.workspace)
          || starts_with base.path current.path)
    ]
  ]

  abbrev with_base : String → Text → Navigator → Navigator
  with_base now base c = record c { base_url = some base; updated_at = now }

  unfoldable pub set_base_url : String → Text → Navigator → NavigationError ⊎ Navigator
  set_base_url now base c =
      if c.is_locked
      then inl context_locked
      else if is_root base
      then inr (with_base now base c)
      else elim (parsed base) [
        | none ↦ inl invalid_url
        | some p ↦
            if not (text_eq (or_else p.workspace_name c.place.workspace) c.place.workspace)
            then inl other_workspace
            else elim (fits p c) [
              | inr e ↦ inl e
              | inl false ↦ inl outside_base
              | inl true ↦ inr (with_base now base c)
            ]
      ]

  -- `setTree`; `getContextTree` throws without such a tree
  unfoldable pub set_tree : String → String → Navigator → NavigationError ⊎ Navigator
  set_tree now name c =
      if c.is_locked then inl context_locked else elim (host.context_tree c.place.workspace name) [
        | none ↦ inl no_tree
        | some id ↦ inr (record c {
          place = record { workspace = c.place.workspace; tree = id };
          updated_at = now;
        })
      ]

-- `lock` and `unlock`
abbrev pub set_locked : Bool → String → Navigator → Navigator
set_locked b now c = record c { is_locked = b; updated_at = now }
