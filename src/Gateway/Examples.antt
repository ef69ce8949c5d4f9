-- ===== src/Gateway/Examples.antt =====
-- Reads of a session (server/src/gateway/tools/session.ts) and listings at concrete inputs.
use mcp_zeromem.Common.{
  inl, inr, String, true, false, ◌≡◌, ◌↔◌, ◌⊎◌, refl, [], ◌∷◌, none, some, Option, length,
}
use mcp_zeromem.Common.Text.{is_space, all_chars, is_line_end}
use mcp_zeromem.Memory.{StoredTurn, SessionWindow}
use mcp_zeromem.Gateway.{
  ToolDefinition, writing, is_read, all_tools, memory_tools, curate_tools, WindowOptions,
  wrong_scope, no_session_given, read_session,
}
use mcp_zeromem.Gateway.Listing.{IsListed, all_tools_iff}
use mcp_zeromem.Auth.{AuthConfig, mcp_auth_middleware, after_space}
use mcp_zeromem.Auth.Access.{Gives}
use mcp_zeromem.Gateway.Route.{mcp_request, mcp_request_gated}

abbrev undo : ToolDefinition
undo = writing "zeromem_curate_undo"

six_reads : length (all_tools true true) ≡ 6
unfolding all_tools
six_reads = refl

tools-IsListed : IsListed undo (all_tools true false) ↔ (
    (IsListed undo memory_tools ⊎ ((true ≡ true) × IsListed undo curate_tools))
    × (false ≡ true → is_read undo.kind ≡ true))
tools-IsListed = all_tools_iff true false undo

abbrev turn : StoredTurn
turn = record {
  id = 4;
  session_id = "s";
  speaker = "user";
  text = "hi";
  ts = 0;
  scope = some "project:atlas";
}

abbrev opened : SessionWindow
opened = record {
  session_id = "s";
  turns = turn ∷ [];
  around_turn = none;
  total = 1;
  offset = 0;
  truncated = false;
}

abbrev session_window : WindowOptions → SessionWindow
session_window o = opened

abbrev options : WindowOptions
options = record {
  session_id = some "s";
  around_turn = none;
  before = none;
  after = none;
  limit = none;
  offset = none;
}

another_scope : read_session session_window (some "project:x") options ≡ wrong_scope "s"
unfolding read_session
another_scope = refl

nothing_named :
    read_session session_window none (record options { session_id = none }) ≡ no_session_given
unfolding read_session
nothing_named = refl

abbrev auth : AuthConfig
auth = record { enabled = true; token = some "s3cret" }

abbrev header : Option String
header = some "Bearer cur4tor"

offered :
    mcp_request (λ s. s) auth (some (some "cur4tor")) header none false
    ≡ some (all_tools true false)
unfolding mcp_request mcp_auth_middleware is_space all_chars after_space is_line_end
offered = refl

undo-IsListed : IsListed undo (all_tools true false)
unfolding all_tools
undo-IsListed = inr (inr (inr (inr (inr (inr (inr (inr (inr (inr (inl refl))))))))))

mcp_request_gated_example :
    (IsListed undo memory_tools
      ⊎ ((token : Option String) × (some (some "cur4tor") ≡ some token) × Gives header token)
      ⊎ (none ≡ some true))
    × ((false ≡ false) ⊎ (is_read undo.kind ≡ true))
mcp_request_gated_example =
    mcp_request_gated (λ s. s) (λ a b e. e) auth (some (some "cur4tor")) header none false
      (all_tools true false) undo offered undo-IsListed
