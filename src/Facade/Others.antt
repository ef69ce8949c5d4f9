-- ===== src/Facade/Others.antt =====
-- The calls of ZeroMemEngine (server/src/engine/index.ts) that the routes do not make, but the tools, the
-- embed worker and the start of a process.
use mcp_zeromem.Common.{ℕ, String, Bool, Option, List, or_else}
use mcp_zeromem.Memory.{TurnInput, SessionWindow}
use mcp_zeromem.Metrics.{Metrics, record_ingest}
use mcp_zeromem.Gateway.{WindowOptions}
use mcp_zeromem.Gateway.Tools.{CandidateKind, CandidateOptions, TurnSelector}
use mcp_zeromem.Api.Engine.{Called, returned, rejected}
use mcp_zeromem.Facade.{Parsed, Reading, ZeroMemEngine, check, checked, passed}

-- An action is of the type `A`.
pub record NativeOthers (S R A : Type 0) : Type 0 where
  pub ingest_turn : TurnInput → S → Called R × S
  pub session_window : WindowOptions → S → Called R × S
  pub refresh : S → Called ℕ × S
  pub rebuild : S → Called Unit × S
  pub embedding_backlog : S → Called ℕ × S
  pub embed_backlog : ℕ → S → Called ℕ × S
  pub curate_apply : String → String → List A → Bool → S → Called R × S
  pub curate_candidates : CandidateKind → CandidateOptions → S → Called R × S
  pub curation_turns : TurnSelector → Option ℕ → S → Called R × S

-- `ingestOutcomeSchema` of shared/src/memory.ts, with the turn's id.
pub data IngestOutcome : Type 0 where
  indexed duplicate : ℕ → IngestOutcome

pub record OtherSchemas (R J : Type 0) : Type 0 where
  pub ingest_outcome : R → Parsed IngestOutcome
  pub session_window : R → Parsed SessionWindow
  pub apply_report : R → Parsed J
  pub candidate_page : R → Parsed J
  pub curated_turns : R → Parsed J

-- `outcome.outcome === 'indexed' ? 1 : 0`
abbrev pub newly : IngestOutcome → ℕ
newly (indexed id) = 1
newly (duplicate id) = 0

abbrev pub counted_turn : Metrics → Called IngestOutcome → Reading → Metrics
counted_turn m (returned outcome) r = record_ingest r.now (newly outcome) m
counted_turn m (rejected f) r = m

module _ {S R A J : Type 0} (reading : S → Reading) (n : NativeOthers S R A)
    (c : OtherSchemas R J) where
  abbrev count_turn : Metrics → Called R × S → Called IngestOutcome × ZeroMemEngine S
  count_turn m (outcome, s) =
      let told = check c.ingest_outcome outcome in
      (told, record { store = s; metrics = counted_turn m told (reading s) })

  unfoldable pub ingest_turn : TurnInput → ZeroMemEngine S → Called IngestOutcome × ZeroMemEngine S
  ingest_turn turn e = count_turn e.metrics (n.ingest_turn turn e.store)

  unfoldable pub session_window :
      WindowOptions → ZeroMemEngine S → Called SessionWindow × ZeroMemEngine S
  session_window options e = checked c.session_window e.metrics (n.session_window options e.store)

  unfoldable pub refresh : ZeroMemEngine S → Called ℕ × ZeroMemEngine S
  refresh e = passed e.metrics (n.refresh e.store)

  unfoldable pub rebuild : ZeroMemEngine S → Called Unit × ZeroMemEngine S
  rebuild e = passed e.metrics (n.rebuild e.store)

  unfoldable pub embedding_backlog : ZeroMemEngine S → Called ℕ × ZeroMemEngine S
  embedding_backlog e = passed e.metrics (n.embedding_backlog e.store)

  unfoldable pub embed_backlog : Option ℕ → ZeroMemEngine S → Called ℕ × ZeroMemEngine S
  embed_backlog limit e = passed e.metrics (n.embed_backlog (or_else limit 256) e.store)

  unfoldable pub curate_apply :
      String → String → List A → Bool → ZeroMemEngine S → Called J × ZeroMemEngine S
  curate_apply id actor actions dry_run e =
      checked c.apply_report e.metrics (n.curate_apply id actor actions dry_run e.store)

  unfoldable pub curate_candidates :
      CandidateKind → CandidateOptions → ZeroMemEngine S → Called J × ZeroMemEngine S
  curate_candidates kind options e =
      checked c.candidate_page e.metrics (n.curate_candidates kind options e.store)

  unfoldable pub curation_turns :
      TurnSelector → Option ℕ → ZeroMemEngine S → Called J × ZeroMemEngine S
  curation_turns selector limit e =
      checked c.curated_turns e.metrics (n.curation_turns selector limit e.store)
