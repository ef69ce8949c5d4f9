-- ===== src/Gateway.antt =====
-- The tools that an MCP client is offered (server/src/gateway/server.ts, tool.ts), and the read of a
-- session (server/src/gateway/tools/session.ts).
pub mod Listing
pub mod Route
pub mod Server
pub mod Tools
pub mod Prompts
mod Examples
use mcp_zeromem.Common.{
  ℕ, String, Bool, true, false, Option, none, some, List, [], ◌∷◌, ◌++◌, if◌then◌else◌, str_eq,
  keep_if, or_else, not,
}
use mcp_zeromem.Common.Text.{truthy}
use mcp_zeromem.Memory.{StoredTurn, SessionWindow}

pub data Kind : Type 0 where
  read write : Kind

-- Of a tool's definition, what decides its listing and its annotations.
pub record ToolDefinition : Type 0 where
  pub name : String
  pub kind : Kind
  pub destructive : Bool

abbrev pub reading : String → ToolDefinition
reading name = record { name = name; kind = read; destructive = false }

abbrev pub writing : String → ToolDefinition
writing name = record { name = name; kind = write; destructive = false }

-- Recall, session, remember, stats and forget.
unfoldable pub memory_tools : List ToolDefinition
memory_tools =
    reading "zeromem_recall"
    ∷ reading "zeromem_read_session"
    ∷ writing "zeromem_remember"
    ∷ writing "zeromem_ingest"
    ∷ reading "zeromem_stats"
    ∷ record { name = "zeromem_forget_session"; kind = write; destructive = true }
    ∷ []

unfoldable pub curate_tools : List ToolDefinition
curate_tools =
    reading "zeromem_curate_runs"
    ∷ reading "zeromem_curate_candidates"
    ∷ reading "zeromem_curate_read"
    ∷ writing "zeromem_curate_apply"
    ∷ writing "zeromem_curate_undo"
    ∷ []

abbrev pub is_read : Kind → Bool
is_read read = true
is_read write = false

unfoldable pub all_tools : Bool → Bool → List ToolDefinition
unfolding memory_tools curate_tools
all_tools curator read_only =
    let tools = memory_tools ++ (if curator then curate_tools else []) in
    if read_only then keep_if (λ (t : ToolDefinition). is_read t.kind) tools else tools

pub record WindowOptions : Type 0 where
  pub session_id : Option String
  pub around_turn : Option ℕ
  pub before : Option ℕ
  pub after : Option ℕ
  pub limit : Option ℕ
  pub offset : Option ℕ

-- The window, before it is formatted, or one of the two errors.
pub data SessionReply : Type 0 where
  window : SessionWindow → SessionReply
  no_session_given : SessionReply
  wrong_scope : String → SessionReply

-- `turns.find((turn) => turn.scope)?.scope ?? ''`
unfoldable pub found_scope : List StoredTurn → String
found_scope [] = ""
found_scope (t ∷ ts) = or_else (truthy t.scope) (found_scope ts)

-- The check made of the turns of a window that is read.
unfoldable pub is_refused : String → List StoredTurn → Bool
unfolding found_scope
is_refused scope [] = false
is_refused scope (t ∷ ts) = not (str_eq (found_scope (t ∷ ts)) scope)

unfoldable pub check_scope : Option String → SessionWindow → SessionReply
unfolding is_refused
check_scope none w = window w
check_scope (some scope) w = if is_refused scope w.turns then wrong_scope w.session_id else window w

abbrev pub names_session : WindowOptions → Bool
names_session o = elim o.session_id [
  | some s ↦ true
  | none ↦ elim o.around_turn [ some t ↦ true | none ↦ false ]
]

-- The run of `zeromem_read_session`; `session_window` is the engine's.
unfoldable pub read_session :
    (WindowOptions → SessionWindow) → Option String → WindowOptions → SessionReply
unfolding check_scope
read_session session_window given options =
    if names_session options
    then check_scope (truthy given) (session_window options)
    else no_session_given
