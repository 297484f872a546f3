-- ===== src/Hooks/Keys/Tests.antt =====
-- Keys and names of src/core/workspace/services/hook on concrete texts.
use mathlib.Core.List.{Memᴰ}
use canvas_server.Prelude.{
  ◌≡◌, ◌≢◌, ◌↔◌, refl, Option, none, some, List, [], ◌∷◌, Text, codes, split,
}
use canvas_server.Workspaces.References.{join}
use canvas_server.Hooks.Keys.{
  squeeze, drop_edge, take, cleaned_segment, sanitize_segment, key_segments, join_key,
  is_disabled_file, without_prefix, enabled_name, disabled_name,
}
use canvas_server.Hooks.Keys.Inside.{IsSegment, IsIn, join_key-IsSegment}

abbrev escaping : List (Option Text)
escaping = some (codes "/a//..\\b") ∷ none ∷ some (codes "./c") ∷ []

join_key_test : join_key escaping ≡ codes "a/b/c"
unfolding join_key key_segments join
join_key_test = refl

join_key-IsSegment_example :
    ((join_key escaping ≢ []) × Memᴰ (codes "b") (split b'/' (join_key escaping)))
    ↔ (IsSegment (codes "b") × IsIn (codes "b") escaping)
join_key-IsSegment_example = join_key-IsSegment escaping (codes "b")

segment_test : sanitize_segment (some (codes " .a:/b \t c.")) (codes "x") ≡ codes "a-b - c"
unfolding sanitize_segment cleaned_segment squeeze drop_edge take
segment_test = refl

enabled_test : enabled_name (disabled_name (codes "youtube.js")) ≡ codes "youtube.js"
unfolding enabled_name disabled_name is_disabled_file without_prefix
enabled_test = refl
