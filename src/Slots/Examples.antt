-- ===== src/Slots/Examples.antt =====
-- Keys of a chart for app/src/lib/viz.ts, of which the third is the first again.
use mcp_zeromem.Common.{◌-◌, ◌≡◌, ◌≢◌, refl, String, some, List, [], ◌∷◌, arith, get_elem?}
use mcp_zeromem.Slots.{create, slot, color, legend, overflow}
use mcp_zeromem.Slots.Distinct.{slot_distinct}

abbrev sessions : List String
sessions = "a" ∷ "b" ∷ "a" ∷ "c" ∷ []

third : slot (create sessions) "c" ≡ 3
unfolding slot create
third = refl

none_left : overflow (create sessions) ≡ 0
unfolding overflow create
none_left = refl

second_color : color (create sessions) "b" ≡ "var(--viz-series-2)"
unfolding color create
second_color = refl

abbrev key : String
key = "b"

owned : slot (create sessions) key ≢ 0
unfolding slot create
owned = omega arith

slot_distinct_example :
    (key ≡ key)
    × (get_elem? (legend (create sessions)) (slot (create sessions) key - 1)
        ≡ some (key, color (create sessions) key))
slot_distinct_example = slot_distinct sessions key key owned refl
