-- ===== src/Recall/Examples.antt =====
-- Texts and hits for server/src/gateway/tools/recall.ts.
use mcp_zeromem.Common.{◌≡◌, ◌↔◌, refl, none, some, [], ◌∷◌, List, String}
use mcp_zeromem.Common.Text.{is_space, is_line_end}
use mcp_zeromem.Memory.{StoredTurn}
use mcp_zeromem.Recall.Text.{normalise, clip}
use mcp_zeromem.Recall.Clean.{IsClean}
use mcp_zeromem.Recall.Normalised.{normalise-IsClean}
use mcp_zeromem.Recall.Format.{Evidence, primary, supporting, ordered, format_block}

abbrev messy : String
messy = " 1. one \t\r\n\r\r\r2. two\n"

tidied : normalise messy ≡ "1. one\n\n2. two"
unfolding normalise is_space is_line_end
tidied = refl

cut :
    clip "abcdef" 4 17
    ≡ "abcd\n… [clipped: 4 of 6 characters — zeromem_read_session {around_turn: 17}]"
unfolding clip
cut = refl

normalise-IsClean_example : IsClean (normalise messy) × (IsClean messy ↔ (normalise messy ≡ messy))
normalise-IsClean_example = normalise-IsClean messy

abbrev turn : StoredTurn
turn = record {
  id = 4;
  session_id = "s";
  speaker = "user";
  text = "hi";
  ts = 0;
  scope = some "project:atlas";
}

abbrev hit : Evidence
hit = record {
  turn = turn;
  role = supporting;
  superseded_by = some 9;
  valid_until = none;
  before = none;
  after = some (turn ∷ []);
}

abbrev best : Evidence
best = record hit { role = primary }

block :
    format_block (λ ts. "1970-01-01") 2000 hit
    ≡ "[supporting] 1970-01-01 user (session s, turn 4, scope project:atlas, superseded by turn 9): hi\n[after] user (turn 4): hi"
unfolding format_block is_space is_line_end
block = refl

abbrev best_first : List Evidence
best_first = best ∷ hit ∷ []

regrouped : ordered (hit ∷ best ∷ []) ≡ best_first
unfolding ordered
regrouped = refl
