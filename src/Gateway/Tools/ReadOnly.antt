-- ===== src/Gateway/Tools/ReadOnly.antt =====
-- What the tools of a read-only server leave as it was: server/src/gateway/server.ts and
-- server/src/gateway/tools.
use mcp_zeromem.Common.{
  ◌⊎◌, inl, inr, Bool-cases, ℕ, String, Bool, true, false, Option, none, some, List, ◌≡◌, refl,
  or_else, if_cases,
}
use mcp_zeromem.Common.Text.{truthy}
use mcp_zeromem.Memory.{SessionWindow}
use mcp_zeromem.Ingest.{Reading}
use mcp_zeromem.Config.{Config}
use mcp_zeromem.Curator.{CuratorConfig}
use mcp_zeromem.Recall.Format.{Format, recall_options}
use mcp_zeromem.Api.Engine.{Called, returned, rejected, CurationRuns, PageQuery}
use mcp_zeromem.Gateway.{
  SessionReply, window, no_session_given, wrong_scope, names_session, check_scope, all_tools,
  memory_tools, curate_tools, is_read,
}
use mcp_zeromem.Gateway.Tools.{
  ToolEngine, ToolReadsKeep, TurnSelector, Ran, result, failed, engine_failed, then_run,
}
use mcp_zeromem.Gateway.Tools.Calls.{
  Call, recall, read_session, remember, ingest, stats, forget_session, curate_runs,
  curate_candidates, curate_read, curate_apply, curate_undo, tool_of, Output, turn_selector,
}
use mcp_zeromem.Gateway.Tools.Runs

module _ {S : Type 0} (P : S → Type 0) where
  then_run_keeps :
      {B C : Type 0} (r : Called B × S) (k : B → S → Ran C × S)
      → P r.1
      → ((b : B) (t : S) → P t → P (k b t).1)
      → P (then_run r k).1
  then_run_keeps (returned b, s) k p q = q b s p
  then_run_keeps (rejected f, s) k p q = p

module _ {S J A O N : Type 0} (e : ToolEngine S J A O N) (day : ℕ → String) (fixed : N → String)
    (config : Config) (read_line : String → Reading) (read_file : List String → Called String)
    (P : S → Type 0) (laws : ToolReadsKeep P e) where
  shown_keeps :
      (format : Option Format) (given : Option String) (w : SessionWindow) (r : SessionReply)
      (s : S)
      → P s
      → P (Runs.shown_window e day fixed config read_line read_file format given w r s).1
  unfolding Runs.shown_window
  shown_keeps format given w (window v) s p = p
  shown_keeps format given w (wrong_scope id) s p = p
  shown_keeps format given w no_session_given s p = p

  selected_keeps :
      (limit : Option ℕ) (o : Option TurnSelector) (s : S)
      → P s
      → P (Runs.read_selected e day fixed config read_line read_file limit o s).1
  selected_keeps limit none s p = p
  selected_keeps limit (some t) s p =
      then_run_keeps P (e.curation_turns t limit s) _ (laws.curation_turns t limit s p)
        (λ turns u q. q)

  both_keeps :
      (runs : Called CurationRuns) (c : Called CuratorConfig × S)
      → P c.1
      → P (Runs.both_read e day fixed config read_line read_file runs c).1
  both_keeps (rejected f) (c, s) p = p
  both_keeps (returned runs) (rejected f, s) p = p
  both_keeps (returned runs) (returned c, s) p = p

  reading_keeps :
      (c : Call A O) (s : S)
      → is_read (tool_of c).kind ≡ true
      → P s
      → P (Runs.run e day fixed config read_line read_file c s).1
  unfolding tool_of Runs.run Runs.run_recall Runs.run_read_session Runs.run_stats
      Runs.run_curate_runs Runs.run_curate_candidates Runs.run_curate_read
  reading_keeps (recall args) s n p =
      then_run_keeps P (e.query args.query (recall_options config args) s) _
        (laws.query args.query (recall_options config args) s p) (λ found t q. q)
  reading_keeps (read_session format given options) s n p =
      if_cases (λ (x : Ran (Output J N) × S). P x.1) (names_session options) _ _
        (λ named.
          then_run_keeps P (e.session_window options s) _ (laws.session_window options s p)
            (λ w t q. shown_keeps format given w (check_scope (truthy given) w) t q))
        (λ unnamed. p)
  reading_keeps (stats include_sessions limit scope) s n p =
      then_run_keeps P (e.stats s) _ (laws.stats s p) (λ found t q.
        if_cases (λ (x : Ran (Output J N) × S). P x.1)
          (Runs.wants_sessions e day fixed config read_line read_file include_sessions) _ _
          (λ wanted.
            then_run_keeps P (e.list_sessions (or_else limit 50) scope t) _
              (laws.list_sessions (or_else limit 50) scope t q) (λ sessions u r. r))
          (λ unwanted. q))
  reading_keeps (curate_runs limit) s n p =
      let page : PageQuery = record { limit = some (or_else limit 10); offset = none } in
      both_keeps (e.curation_runs page s).0 _
        (laws.curator_config (e.curation_runs page s).1 (laws.curation_runs page s p))
  reading_keeps (curate_candidates kind options) s n p =
      then_run_keeps P (e.curate_candidates kind options s) _
        (laws.curate_candidates kind options s p) (λ page t q. q)
  reading_keeps (curate_read turn_ids session_id entity limit) s n p =
      selected_keeps limit (turn_selector turn_ids session_id entity) s p
  reading_keeps (remember session_id scope turns) s n p = absurd (cc)
  reading_keeps (ingest jsonl path scope) s n p = absurd (cc)
  reading_keeps (forget_session session_id) s n p = absurd (cc)
  reading_keeps (curate_apply id actions dry_run actor) s n p = absurd (cc)
  reading_keeps (curate_undo action target) s n p = absurd (cc)

  module _ (stringify : Output J N → String) where
    send_keeps :
        (x : Ran (Output J N) × S)
        → P x.1
        → P (Runs.send e day fixed config read_line read_file stringify x).1
    unfolding Runs.send
    send_keeps (result output, s) p = p
    send_keeps (failed message, s) p = p
    send_keeps (engine_failed f, s) p = p

    -- A call of a tool that reads keeps what the engine's calls that only read keep of the store.
    pub call_tool_keeps :
        (curator : Bool) (c : Call A O) (s : S)
        → is_read (tool_of c).kind ≡ true
        → P s
        → P (Runs.call_tool e day fixed config read_line read_file stringify curator c s).1
    unfolding Runs.call_tool
    call_tool_keeps curator c s reads p =
        if_cases (λ (x : Runs.Sent × S). P x.1)
          (Runs.is_served e day fixed config read_line read_file stringify curator c) _ _
          (λ served.
            send_keeps (Runs.run e day fixed config read_line read_file c s)
              (reading_keeps c s reads p))
          (λ unserved. p)

    -- The listing of a read-only server has no tool that writes.
    unserved :
        (curator : Bool) (c : Call A O)
        → config.read_only ≡ true
        → is_read (tool_of c).kind ≡ false
        → Runs.is_served e day fixed config read_line read_file stringify curator c ≡ false
    unfolding Runs.is_served tool_of all_tools memory_tools curate_tools
    unserved curator (recall args) on w = absurd (cc)
    unserved curator (read_session format given options) on w = absurd (cc)
    unserved curator (stats include_sessions limit scope) on w = absurd (cc)
    unserved curator (curate_runs limit) on w = absurd (cc)
    unserved curator (curate_candidates kind options) on w = absurd (cc)
    unserved curator (curate_read turn_ids session_id entity limit) on w = absurd (cc)
    unserved true (remember session_id scope turns) on w = rw on refl
    unserved false (remember session_id scope turns) on w = rw on refl
    unserved true (ingest jsonl path scope) on w = rw on refl
    unserved false (ingest jsonl path scope) on w = rw on refl
    unserved true (forget_session session_id) on w = rw on refl
    unserved false (forget_session session_id) on w = rw on refl
    unserved true (curate_apply id actions dry_run actor) on w = rw on refl
    unserved false (curate_apply id actions dry_run actor) on w = rw on refl
    unserved true (curate_undo action target) on w = rw on refl
    unserved false (curate_undo action target) on w = rw on refl

    -- On a read-only server, a call of any tool keeps what the engine's calls that only read keep of the store; and a
    -- call of a tool that writes is not served and changes nothing.
    pub call_tool_read_only :
        config.read_only ≡ true
        → (curator : Bool) (c : Call A O) (s : S) → P s
        → P (Runs.call_tool e day fixed config read_line read_file stringify curator c s).1
          × ((is_read (tool_of c).kind ≡ true)
              ⊎ (Runs.call_tool e day fixed config read_line read_file stringify curator c s
                  ≡ (Runs.not_served, s)))
    unfolding Runs.call_tool
    call_tool_read_only on curator c s p = elim (Bool-cases (is_read (tool_of c).kind)) [
      | inl reads ↦ (call_tool_keeps curator c s reads p, inl reads)
      | inr writes ↦ let off = unserved curator c on writes in (rw off p, inr (rw off refl))
    ]
