-- ===== src/Ingest.antt =====
-- server/src/engine/jsonl.ts and the write tools of server/src/gateway/tools/remember.ts.
pub mod Lines
pub mod Paths
pub mod Report
mod Examples
use Prim.Native.Char.{Char, code}
use Prim.Native.String
use mcp_zeromem.Common.{
  ℕ, zero, suc, ◌+◌, String, Bool, true, false, not, ◌&&◌, ◌||◌, Option, none, some, List, [], ◌∷◌,
  ◌++◌, map, if◌then◌else◌, ◌==◌, or_else, length, take,
}
use mcp_zeromem.Common.Text.{is_space, trim, is_empty, truthy}
use mcp_zeromem.Memory.{TurnInput, IngestReport}

-- `text.split(/\r?\n/)`. A carriage return is held back until the next character shows whether it
-- belongs to the line end.
unfoldable pub split_lines : Bool → String → String → List String
split_lines held cur String.[] = (if held then String.◌++◌ cur "\r" else cur) ∷ []
split_lines held cur (String.◌∷◌ c s) =
    let line = if held then String.◌++◌ cur "\r" else cur in
    let is_end = code c == 10 in
    let rest =
      split_lines (code c == 13)
        (if is_end
          then ""
          else if code c == 13
          then line
          else String.◌++◌ line (String.◌∷◌ c String.[]))
        s in
    if is_end then cur ∷ rest else rest

pub record Rejected : Type 0 where
  pub line : ℕ
  pub reason : String

pub record ParsedJsonl : Type 0 where
  pub turns : List TurnInput
  pub rejected : List Rejected

-- What `JSON.parse` and the schema make of a line: a turn, or the reason why it is none.
pub data Reading : Type 0 where
  turn : TurnInput → Reading
  refused : String → Reading

abbrev pub add_turn : TurnInput → ParsedJsonl → ParsedJsonl
add_turn t p = record p { turns = t ∷ p.turns }

abbrev pub add_rejected : ℕ → String → ParsedJsonl → ParsedJsonl
add_rejected n reason p = record p { rejected = record { line = n; reason = reason } ∷ p.rejected }

module _ (read : String → Reading) where
  abbrev pub add_reading : ℕ → Reading → ParsedJsonl → ParsedJsonl
  add_reading n (turn t) p = add_turn t p
  add_reading n (refused reason) p = add_rejected n reason p

  -- The loop of `parseJsonl`, `n` being the number of the first of the lines.
  unfoldable pub parse_lines : ℕ → List String → ParsedJsonl
  parse_lines n [] = record { turns = []; rejected = [] }
  parse_lines n (raw ∷ lines) =
      let rest = parse_lines (n + 1) lines in
      let line = trim raw in if is_empty line then rest else add_reading n (read line) rest

  unfoldable pub parse_jsonl : String → ParsedJsonl
  unfolding split_lines parse_lines
  parse_jsonl text = parse_lines 1 (split_lines false "" text)

-- `(given ?? fallback ?? '') || undefined`
unfoldable pub scope_of : Option String → Option String → Option String
scope_of none fallback = truthy fallback
scope_of (some s) fallback = truthy (some s)

-- `turn.scope ? turn : { ...turn, scope }`
abbrev pub fill_scope : Option String → TurnInput → TurnInput
fill_scope none t = t
fill_scope (some s) t = elim (truthy t.scope) [ none ↦ record t { scope = some s } | some own ↦ t ]

pub record RememberTurn : Type 0 where
  pub speaker : String
  pub text : String
  pub ts : Option ℕ
  pub uuid : Option String

-- `{ session_id, ...turn, ...(scope ? { scope } : {}) }`
abbrev pub remembered : String → Option String → RememberTurn → TurnInput
remembered session_id scope t = record {
  session_id = session_id;
  speaker = t.speaker;
  text = t.text;
  ts = t.ts;
  uuid = t.uuid;
  scope = scope;
}

pub record IngestReply : Type 0 where
  pub report : IngestReport
  pub rejected_lines : List Rejected

abbrev pub empty_report : IngestReport
empty_report = record { indexed = 0; duplicates = 0; rejected = 0 }

-- `engine.ingestMany`, and the scope that the configuration gives.
module _ (ingest_many : List TurnInput → IngestReport) (config_scope : Option String) where
  unfoldable pub remember : String → Option String → List RememberTurn → IngestReport
  unfolding scope_of
  remember session_id scope turns =
      ingest_many (map (remembered session_id (scope_of scope config_scope)) turns)

  abbrev pub ingest_turns : List TurnInput → IngestReport
  ingest_turns [] = empty_report
  ingest_turns (t ∷ ts) = ingest_many (t ∷ ts)

  -- `zeromem_ingest`, once the text is at hand.
  unfoldable pub ingest_text : (String → Reading) → Option String → String → IngestReply
  unfolding scope_of parse_jsonl
  ingest_text read scope text =
      let parsed = parse_jsonl read text in
      let report = ingest_turns (map (fill_scope (scope_of scope config_scope)) parsed.turns) in
      record {
        report = record report { rejected = report.rejected + length parsed.rejected };
        rejected_lines = take 20 parsed.rejected;
      }

-- Where `zeromem_ingest` takes its text from: exactly one of the two must be given.
pub data Source : Type 0 where
  inline : String → Source
  file : String → Source
  neither_or_both : Source

unfoldable pub ingest_source : Option String → Option String → Source
ingest_source none none = neither_or_both
ingest_source (some jsonl) (some path) = neither_or_both
ingest_source (some jsonl) none = inline jsonl
ingest_source none (some path) = file path
