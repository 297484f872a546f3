-- ===== src/Context/Tests.antt =====
-- Contexts that are shared and moved.
use canvas_server.Prelude.{
  ◌≡◌, refl, inr, true, false, not, ◌&&◌, if◌then◌else◌, none, some, [], ◌∷◌, ◌==◌, codes, lookup,
  insert, remove, string_key, leb,
}
use canvas_server.Context.Sharing.{
  Share, Context, with_levels, with_users, grant_access, revoke_access, revoke_access_by_email,
  check_permission, permitted, share_level,
}
use canvas_server.Context.Sharing.Granted.{check_permission-grant_access}
use canvas_server.Context.Sharing.Revoked.{
  check_permission-revoke_access_by_email, check_permission-revoke_access,
}
use canvas_server.Context.Url.{
  ParsedUrl, parse_url, is_valid, clean_url, clean_path, clean_workspace, cut_protocol, cut_at,
  protocols, collapse, match_workspace, span_reference, path_of, shaped, format_url,
}
use canvas_server.Context.Navigation.{
  Navigator, Host, parsed, set_url, move, depart, arrive, is_allowed, unlock_effect,
  switch_workspace, tree_in,
}
use canvas_server.Context.Navigation.Confined.{IsConfined, set_url-IsConfined}
use canvas_server.Context.Navigation.Locks.{after, lock_of, IsExact, set_url-IsExact}

abbrev jane_share : Share
jane_share = record {
  access_level = "documentReadWrite";
  user_id = "u2";
  description = none;
  granted_at = "then";
  granted_by = "u1";
  updated_at = none;
  updated_by = none;
}

abbrev notes : Context
notes = record {
  user_id = "u1";
  acl = record {
    levels = ("u3", "documentRead") ∷ [];
    users = some (("jane@x.y", jane_share) ∷ []);
  };
  updated_at = "then";
}

abbrev granted_notes : Context
granted_notes = with_levels (("u3", "documentWrite") ∷ []) "now" notes

check_permission-grant_access_example : check_permission "u3" "documentRead" granted_notes ≡ (
    if "u3" == "u3" && not ("u3" == "u1")
    then permitted "documentWrite" "documentRead"
    else check_permission "u3" "documentRead" notes)
unfolding grant_access insert
check_permission-grant_access_example =
    check_permission-grant_access "now" "u3" "documentWrite" notes granted_notes "u3" "documentRead"
      refl

abbrev unshared_notes : Context
unshared_notes = with_users [] "now" notes

check_permission-revoke_access_by_email_example :
    check_permission "u2" "documentRead" unshared_notes ≡ false
unfolding revoke_access_by_email lookup remove share_level
check_permission-revoke_access_by_email_example =
    check_permission-revoke_access_by_email "now" "jane@x.y" "u2" "documentRead" notes
      unshared_notes refl refl refl refl refl

abbrev ungranted_notes : Context
ungranted_notes = with_levels [] "now" notes

check_permission-revoke_access_example :
    check_permission "u2" "documentRead" ungranted_notes
    ≡ (if "u3" == "u2" then false else check_permission "u2" "documentRead" notes)
unfolding revoke_access lookup remove share_level
check_permission-revoke_access_example =
    check_permission-revoke_access "now" "u3" notes ungranted_notes "u2" "documentRead" refl refl
      refl

abbrev host : Host
host = record {
  is_letter = λ c. leb b'a' c && leb c b'z';
  unlock_path = λ place p. true;
  lock_path = λ place p. true;
  insert_path = λ place p. true;
  has_workspace = λ name. true;
  open_workspace = λ name. true;
  find_tree = λ name tree. none;
  directory_tree = λ name tree. none;
  context_tree = λ name tree. none;
  default_tree = λ name. "tree";
}

abbrev here : Navigator
here = record {
  is_locked = false;
  is_universe = true;
  base_url = some (codes "/work");
  url = some (codes "home://work/a");
  path = some (codes "/work/a");
  path_array = codes "work" ∷ codes "a" ∷ [];
  bitmaps = codes "work" ∷ codes "a" ∷ [];
  place = record { workspace = codes "home"; tree = "tree" };
  updated_at = "then";
}

abbrev there : Navigator
there = record here {
  url = some (codes "lab://work/b");
  path = some (codes "/work/b");
  path_array = codes "work" ∷ codes "b" ∷ [];
  bitmaps = codes "work" ∷ codes "b" ∷ [];
  place = record { workspace = codes "lab"; tree = "tree" };
  updated_at = "now";
}

moved : (set_url host "now" (codes "Lab://work//b/") here).1 ≡ inr there
unfolding set_url parse_url is_valid clean_url clean_path clean_workspace cut_protocol cut_at
    protocols collapse match_workspace span_reference path_of shaped format_url is_allowed move
    depart switch_workspace tree_in arrive unlock_effect
moved = refl

set_url-IsConfined_example :
    IsConfined host there
    × ((p : ParsedUrl) × (parsed host (codes "Lab://work//b/") ≡ some p)
        × (there.path ≡ some p.path))
set_url-IsConfined_example = set_url-IsConfined host "now" (codes "Lab://work//b/") here there moved

set_url-IsExact_example :
    IsExact there
      (after (set_url host "now" (codes "Lab://work//b/") here).0 (lock_of here.path here.place))
set_url-IsExact_example =
    set_url-IsExact host (λ place p. refl) (λ place p. refl) "now" (codes "Lab://work//b/") here
      there (lock_of here.path here.place) (λ x q. refl) moved
