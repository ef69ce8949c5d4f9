-- ===== src/Recall/Window.antt =====
-- `formatWindowText` of server/src/gateway/tools/session.ts. `day` is the UTC date of a time.
use Prim.Native.String.{◌++◌}
use mcp_zeromem.Common.{
  ℕ, ◌+◌, String, Bool, false, Option, none, some, List, [], ◌∷◌, map, ◌==◌, length, if◌then◌else◌,
}
use mcp_zeromem.Common.Text.{truthy, join, trim}
use mcp_zeromem.Memory.{StoredTurn, SessionWindow}
use mcp_zeromem.Gateway.{found_scope}
use mcp_zeromem.Recall.Text.{unify, strip_blanks, squeeze, show}

-- The session tool's own `normalise`.
unfoldable pub normalise : String → String
unfolding unify strip_blanks squeeze trim
normalise text = trim (squeeze 0 (strip_blanks (unify false text)))

abbrev pub is_anchor : Option ℕ → ℕ → Bool
is_anchor none id = false
is_anchor (some around) id = id == around

abbrev first_number : SessionWindow → List StoredTurn → ℕ
first_number w [] = 0
first_number w (t ∷ ts) = w.offset + 1

abbrev scope_part : Option String → String
scope_part none = ""
scope_part (some scope) = " (scope " ++ scope ++ ")"

unfoldable pub window_header : SessionWindow → String
unfolding show found_scope
window_header w =
    "session "
    ++ w.session_id
    ++ scope_part (truthy (some (found_scope w.turns)))
    ++ ": turns "
    ++ show (first_number w w.turns)
    ++ "–"
    ++ show (w.offset + length w.turns)
    ++ " of "
    ++ show w.total
    ++ (if w.truncated then " (more; page on with `offset`)" else "")

unfoldable pub window_line : (ℕ → String) → Option ℕ → StoredTurn → String
unfolding show normalise
window_line day around turn =
    (if is_anchor around turn.id then "→ " else "")
    ++ "[turn "
    ++ show turn.id
    ++ "] "
    ++ day turn.ts
    ++ " "
    ++ turn.speaker
    ++ ": "
    ++ normalise turn.text

unfoldable pub format_window_text : (ℕ → String) → SessionWindow → String
unfolding window_header window_line join
format_window_text day w = join "\n" (window_header w ∷ map (window_line day w.around_turn) w.turns)
