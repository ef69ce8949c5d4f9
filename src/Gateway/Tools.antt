-- ===== src/Gateway/Tools.antt =====
-- The tools' runs against a store (server/src/gateway/tools), and the call of a tool of the server
-- (server/src/gateway/server.ts). The arguments are as the tools' schemas have left them.
pub mod Calls
pub mod Runs
pub mod ReadOnly
pub mod Examples
use mcp_zeromem.Common.{
  ℕ, ◌+◌, String, Bool, true, false, Option, none, some, List, [], ◌∷◌, map, or_else, length, take,
  if◌then◌else◌,
}
use mcp_zeromem.Memory.{TurnInput, IngestReport, SessionWindow}
use mcp_zeromem.Curator.{CuratorConfig}
use mcp_zeromem.Gateway.{WindowOptions}
use mcp_zeromem.Recall.Format.{QueryResult, RecallOptions}
use mcp_zeromem.Api.Engine.{Failure, Called, CurationRuns, PageQuery, UndoRequest}

-- Exactly one of three is given.
pub data TurnSelector : Type 0 where
  by_ids : List ℕ → TurnSelector
  by_session : String → TurnSelector
  by_entity : String → TurnSelector

pub record CandidateOptions : Type 0 where
  pub since_turn_id : Option ℕ
  pub limit : Option ℕ
  pub offset : Option ℕ

-- `candidateKindSchema` of shared/src/curation.ts.
pub data CandidateKind : Type 0 where
  duplicates noise aliases supersession consolidation brief : CandidateKind

-- What the tools call of the engine; an action is an `A`, the options of a recall that are passed on an
-- `O`, a score an `N`, and an answer that is passed on a `J`.
pub record ToolEngine (S J A O N : Type 0) : Type 0 where
  pub query : String → RecallOptions O → S → Called (QueryResult N) × S
  pub session_window : WindowOptions → S → Called SessionWindow × S
  pub ingest_many : List TurnInput → S → Called IngestReport × S
  pub stats : S → Called J × S
  pub list_sessions : ℕ → Option String → S → Called J × S
  pub delete_session : String → S → Called ℕ × S
  pub curation_runs : PageQuery → S → Called CurationRuns × S
  pub curator_config : S → Called CuratorConfig × S
  pub curate_candidates : CandidateKind → CandidateOptions → S → Called J × S
  pub curation_turns : TurnSelector → Option ℕ → S → Called J × S
  pub curate_apply : String → String → List A → Bool → S → Called J × S
  pub curate_undo : UndoRequest → String → S → Called J × S

-- The calls that only read keep `P`.
pub record ToolReadsKeep {S J A O N : Type 0} (P : S → Type 0) (e : ToolEngine S J A O N)
    : Type 0 where
  pub query : (q : String) (o : RecallOptions O) (s : S) → P s → P (e.query q o s).1
  pub session_window : (o : WindowOptions) (s : S) → P s → P (e.session_window o s).1
  pub stats : (s : S) → P s → P (e.stats s).1
  pub list_sessions :
      (n : ℕ) (scope : Option String) (s : S) → P s → P (e.list_sessions n scope s).1
  pub curation_runs : (q : PageQuery) (s : S) → P s → P (e.curation_runs q s).1
  pub curator_config : (s : S) → P s → P (e.curator_config s).1
  pub curate_candidates :
      (k : CandidateKind) (o : CandidateOptions) (s : S) → P s → P (e.curate_candidates k o s).1
  pub curation_turns :
      (t : TurnSelector) (limit : Option ℕ) (s : S) → P s → P (e.curation_turns t limit s).1

-- What a run ends with.
pub data Ran (B : Type 0) : Type 0 where
  result : B → Ran B
  failed : String → Ran B  -- an error of the run's own
  engine_failed : Failure → Ran B

module _ {S B C : Type 0} where
  abbrev pub then_run : Called B × S → (B → S → Ran C × S) → Ran C × S
  then_run (Called.returned b, s) k = k b s
  then_run (Called.rejected f, s) k = (engine_failed f, s)
