-- ===== src/Http/Range/Tests.antt =====
-- Runs of the range parser, and its theorems at concrete headers.
use canvas_server.Prelude.{◌≤◌, ◌<◌, ◌≡◌, refl, some, none, codes}
use canvas_server.Http.Range.{absent, unsatisfiable, range, parse_byte_range}
use canvas_server.Http.Range.Bounds.{parse_byte_range-inside}

parse_tests :
    (parse_byte_range (some (codes " bytes=2-5 ")) (some 10) ≡ range 2 5)
    × (parse_byte_range (some (codes "bytes=7-")) (some 10) ≡ range 7 9)
    × (parse_byte_range (some (codes "bytes=-3")) (some 10) ≡ range 7 9)
    × (parse_byte_range (some (codes "bytes=-0")) (some 10) ≡ unsatisfiable)
    × (parse_byte_range (some (codes "bytes=10-")) (some 10) ≡ unsatisfiable)
    × (parse_byte_range (some (codes "bytes=5-2")) (some 10) ≡ unsatisfiable)
    × (parse_byte_range (some (codes "bytes=-")) (some 10) ≡ absent)
    × (parse_byte_range (some (codes "bytes=0-1,4-5")) (some 10) ≡ absent)
    × (parse_byte_range (some (codes "bytes=0-")) (some 0) ≡ unsatisfiable)
    × (parse_byte_range none (some 10) ≡ absent)
unfolding parse_byte_range
parse_tests = (refl, refl, refl, refl, refl, refl, refl, refl, refl, refl)

parse_byte_range-inside_example : (2 ≤ 5) × (5 < 10)
parse_byte_range-inside_example = parse_byte_range-inside (codes " bytes=2-5 ") 10 2 5 parse_tests.0
