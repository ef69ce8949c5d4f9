-- ===== src/Gateway/Tools/Examples.antt =====
-- Calls of the tools of server/src/gateway/tools on a small engine, whose store is the number of its
-- turns.
use mcp_zeromem.Common.{
  ℕ, ◌+◌, ◌≤◌, ◌⊎◌, String, true, false, none, List, [], ◌≡◌, refl, length, arith,
}
use mcp_zeromem.Memory.{SessionWindow}
use mcp_zeromem.Ingest.{Reading, refused}
use mcp_zeromem.Config.{Config, auto}
use mcp_zeromem.Curator.{CuratorConfig}
use mcp_zeromem.Api.Engine.{Called, returned}
use mcp_zeromem.Gateway.{is_read, all_tools, memory_tools, curate_tools}
use mcp_zeromem.Gateway.Tools.{ToolEngine, ToolReadsKeep}
use mcp_zeromem.Gateway.Tools.Calls.{Output, forget_session, curate_undo, tool_of}
use mcp_zeromem.Gateway.Tools.Runs
use mcp_zeromem.Gateway.Tools.Runs.{call_tool, not_served, tool_error}
use mcp_zeromem.Gateway.Tools.ReadOnly.{call_tool_read_only}

abbrev pub passed : {A : Type 0} → A → ℕ → Called A × ℕ
passed a s = (returned a, s)

abbrev pub limits : CuratorConfig
limits = record {
  max_per_call = 1;
  max_per_run = 1;
  min_age_ms = 0;
  token = none;
  expose_to_all = false;
  brief_max_chars = 200;
}

abbrev pub no_window : SessionWindow
no_window = record {
  session_id = "s";
  turns = [];
  around_turn = none;
  total = 0;
  offset = 0;
  truncated = false;
}

abbrev pub small : ToolEngine ℕ ℕ ℕ ℕ ℕ
small = record {
  query = λ q o s. passed (record { abstained = none; evidence = [] }) s;
  session_window = λ o s. passed no_window s;
  ingest_many =
      λ ts s. passed (record { indexed = length ts; duplicates = 0; rejected = 0 }) (s + length ts);
  stats = λ s. passed s s;
  list_sessions = λ n scope s. passed s s;
  delete_session = λ id s. (returned s, 0);
  curation_runs = λ q s. passed (record { ended_at = []; cursor = 0 }) s;
  curator_config = λ s. passed limits s;
  curate_candidates = λ k o s. passed 0 s;
  curation_turns = λ t limit s. passed 0 s;
  curate_apply = λ id actor actions dry_run s. passed 0 s;
  curate_undo = λ target actor s. passed 0 s;
}

abbrev pub laws : ToolReadsKeep (λ s. 2 ≤ s) small
laws = record {
  query = λ q o s p. p;
  session_window = λ o s p. p;
  stats = λ s p. p;
  list_sessions = λ n scope s p. p;
  curation_runs = λ q s p. p;
  curator_config = λ s p. p;
  curate_candidates = λ k o s p. p;
  curation_turns = λ t limit s p. p;
}

abbrev pub writable : Config
writable = record {
  data_dir = "/data";
  port = 3000;
  keep_alive_timeout_ms = 75000;
  auth_token = none;
  read_only = false;
  recall_text_limit = 2000;
  embedder = auto;
  allow_embedder_switch = false;
  remote_embedder = none;
  embedding_api_key = none;
  session_id = none;
  scope = none;
  curator_token = none;
  curator = false;
}

abbrev pub frozen : Config
frozen = record writable { read_only = true }

abbrev pub day : ℕ → String
day ts = "1970-01-01"

abbrev pub fixed : ℕ → String
fixed best = "0.00"

abbrev pub read_line : String → Reading
read_line line = refused ""

abbrev pub read_file : List String → Called String
read_file path = returned ""

abbrev pub stringify : Output ℕ ℕ → String
stringify output = "{}"

-- Neither an action nor a run.
undone_nothing :
    call_tool small day fixed writable read_line read_file stringify true (curate_undo none none) 2
    ≡ (tool_error "Give exactly one of action_id or run_id.", 2)
unfolding call_tool Runs.is_served Runs.run Runs.run_curate_undo Runs.send tool_of all_tools
    memory_tools curate_tools
undone_nothing = refl

call_tool_read_only_example :
    (2
      ≤ (call_tool small day fixed frozen read_line read_file stringify true
          (forget_session "s")
          2).1)
    × ((is_read (tool_of {A = ℕ} {O = ℕ} (forget_session "s")).kind ≡ true)
        ⊎ (call_tool small day fixed frozen read_line read_file stringify true
              (forget_session "s")
              2
            ≡ (not_served, 2)))
call_tool_read_only_example =
    call_tool_read_only small day fixed frozen read_line read_file (λ s. 2 ≤ s) laws stringify refl
      true (forget_session "s") 2 (omega arith)
