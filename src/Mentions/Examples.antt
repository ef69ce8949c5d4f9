-- ===== src/Mentions/Examples.antt =====
-- Mentions in a text of four bytes, for app/src/lib/mentions.ts.
use mcp_zeromem.Common.{ℕ, ◌≡◌, refl, List, [], ◌∷◌, map, All}
use mcp_zeromem.Mentions.{Mention, Span, split_bytes}
use mcp_zeromem.Mentions.Cover.{joined, IsShown, split_bytes-joined}

abbrev inner : Mention
inner = record { key = "b"; surface = "b"; start = 1; stop = 2 }

abbrev outer : Mention
outer = record { key = "bc"; surface = "bc"; start = 1; stop = 3 }

abbrev beyond : Mention
beyond = record { key = "e"; surface = "e"; start = 4; stop = 9 }

abbrev bytes : List ℕ
bytes = 97 ∷ 98 ∷ 99 ∷ 100 ∷ []

-- The longer of two mentions that start together wins, and one beyond the text is dropped.
longer_wins :
    map (λ (s : Span). s.bytes) (split_bytes bytes (beyond ∷ inner ∷ outer ∷ []))
    ≡ (97 ∷ []) ∷ (98 ∷ 99 ∷ []) ∷ (100 ∷ []) ∷ []
unfolding split_bytes
longer_wins = refl

split_bytes-joined_example :
    (joined (split_bytes bytes (beyond ∷ inner ∷ outer ∷ [])) ≡ bytes)
    × All (IsShown bytes) (split_bytes bytes (beyond ∷ inner ∷ outer ∷ []))
split_bytes-joined_example = split_bytes-joined bytes beyond (inner ∷ outer ∷ [])
