-- ===== src/Gate/Clamp.antt =====
-- `clampPathToBase` of src/transports/middleware/agent-acl.js, with `path.posix.normalize` on the
-- absolute paths that it is called with.
pub mod Inside
use canvas_server.Prelude.{
  ℕ, Bool, true, false, ◌||◌, ◌&&◌, not, Option, none, some, List, [], ◌∷◌, ◌++◌, nat_eq, Text,
  codes, text_eq, or_else, split, starts_with, has_text, trim, if◌then◌else◌,
}
use mathlib.Core.List.{reverse}

abbrev pub drop_last : List Text → List Text
drop_last [] = []
drop_last (s ∷ done) = done

-- What is left of the segments, with those so far in reverse: "" and "." are dropped, and ".."
-- drops the segment before it, if there is one.
unfoldable pub resolved : List Text → List Text → List Text
resolved done [] = reverse done
resolved done (s ∷ rest) =
    if text_eq s [] || text_eq s (codes ".")
    then resolved done rest
    else if text_eq s (codes "..")
    then resolved (drop_last done) rest
    else resolved (s ∷ done) rest

-- The segments with a slash before each.
unfoldable pub rooted : List Text → Text
rooted [] = []
rooted (s ∷ rest) = b'/' ∷ s ++ rooted rest

abbrev pub or_root : Text → Text
or_root [] = b'/' ∷ []
or_root (c ∷ s) = c ∷ s

abbrev pub ends_with_slash : Text → Bool
ends_with_slash [] = false
ends_with_slash (c ∷ []) = nat_eq c b'/'
ends_with_slash (c ∷ d ∷ s) = ends_with_slash (d ∷ s)

-- `path.posix.normalize` on an absolute path
unfoldable pub normalize : Text → Text
unfolding resolved rooted
normalize path =
    let segments = resolved [] (split b'/' path) in
    if ends_with_slash path
    then or_root (rooted segments ++ (if text_eq (rooted segments) [] then [] else b'/' ∷ []))
    else or_root (rooted segments)

-- The check for ".." in what `normalize` returns.
unfoldable pub escapes : Text → Bool
escapes p =
    text_eq p (codes "..")
    || starts_with (codes "/..") p
    || has_text (codes "/../") p
    || starts_with (reverse (codes "/..")) (reverse p)

abbrev pub drop_slash : Text → Text
drop_slash [] = []
drop_slash (c ∷ []) = if nat_eq c b'/' then [] else c ∷ []
drop_slash (c ∷ d ∷ s) = c ∷ drop_slash (d ∷ s)

-- The path without the slash at its end, unless it is the root.
abbrev pub cleaned : Text → Text
cleaned p = if text_eq p (b'/' ∷ []) then p else drop_slash p

-- The tests against the base, and what is returned.
unfoldable pub within : Text → Text → Option Text
within base clean =
    if text_eq base (b'/' ∷ [])
    then some clean
    else if text_eq clean (b'/' ∷ [])
    then some base
    else if text_eq clean base || starts_with (base ++ b'/' ∷ []) clean
    then some clean
    else none

abbrev pub with_root : Text → Text
with_root raw = if starts_with (b'/' ∷ []) raw then raw else b'/' ∷ raw

-- A request that is not blank.
unfoldable pub clamp_filled : Text → Text → Option Text
unfolding normalize escapes within
clamp_filled base raw =
    let normalized = normalize (with_root raw) in
    if escapes normalized then none else within base (cleaned normalized)

unfoldable pub clamp_path_to_base : Option Text → Option Text → Option Text
unfolding clamp_filled
clamp_path_to_base base none = some (or_root (or_else base []))
clamp_path_to_base base (some requested) =
    if text_eq (trim requested) []
    then some (or_root (or_else base []))
    else clamp_filled (or_root (or_else base [])) (trim requested)
