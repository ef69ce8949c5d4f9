-- ===== src/Slots.antt =====
-- app/src/lib/viz.ts: the class SlotMap, which gives the keys of a chart their colours.
pub mod Distinct
mod Examples
use Prim.Native.String.{◌++◌}
use mcp_zeromem.Common.{
  ℕ, ◌+◌, ◌-◌, min, max, String, Bool, Option, none, some, List, [], ◌∷◌, ◌++◌ as list_append, map,
  ltb, leb, ◌==◌, length, keep_if, or_else, str_eq, if◌then◌else◌,
}
use mcp_zeromem.Recall.Text.{show}

abbrev pub series_slots : ℕ
series_slots = 8

abbrev pub other_color : String
other_color = "var(--viz-other)"

unfoldable pub series_color : ℕ → String
unfolding show
series_color slot = "var(--viz-series-" ++ show (min series_slots (max 1 slot)) ++ ")"

-- The `Map`, in insertion order.
pub record SlotMap : Type 0 where
  pub slots : List (String × ℕ)

unfoldable pub get : String → List (String × ℕ) → Option ℕ
get key [] = none
get key ((k, slot) ∷ rest) = if str_eq k key then some slot else get key rest

unfoldable pub add_key : List (String × ℕ) → String → List (String × ℕ)
unfolding get
add_key slots key = elim (get key slots) [
  | none ↦ list_append slots ((key, length slots + 1) ∷ [])
  | some slot ↦ slots
]

unfoldable pub add_keys : List (String × ℕ) → List String → List (String × ℕ)
unfolding add_key
add_keys slots [] = slots
add_keys slots (key ∷ keys) = add_keys (add_key slots key) keys

unfoldable pub create : List String → SlotMap
unfolding add_keys
create keys = record { slots = add_keys [] keys }

unfoldable pub slot : SlotMap → String → ℕ
unfolding get
slot m key = let found = or_else (get key m.slots) 0 in if ltb series_slots found then 0 else found

unfoldable pub color : SlotMap → String → String
unfolding slot series_color
color m key = let found = slot m key in if found == 0 then other_color else series_color found

-- A key with its colour.
unfoldable pub legend : SlotMap → List (String × String)
unfolding series_color
legend m =
    map (λ (e : String × ℕ). (e.0, series_color e.1))
      (keep_if (λ (e : String × ℕ). leb e.1 series_slots) m.slots)

unfoldable pub overflow : SlotMap → ℕ
overflow m = length m.slots - series_slots
