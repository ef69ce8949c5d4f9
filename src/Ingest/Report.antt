-- ===== src/Ingest/Report.antt =====
-- What the write tools of server/src/gateway/tools/remember.ts report.
use mcp_zeromem.Common.{
  ◌+◌, ◌≤◌, String, false, not, Option, List, [], ◌∷◌, map, ◌≡◌, arith, length, length-map,
  length-take,
}
use mcp_zeromem.Common.Sort.{count_if}
use mcp_zeromem.Common.Text.{trim, is_empty}
use mcp_zeromem.Memory.{TurnInput, IngestReport}
use mcp_zeromem.Ingest.{
  Reading, split_lines, parse_jsonl, scope_of, fill_scope, ingest_turns, ingest_text,
}
use mcp_zeromem.Ingest.Lines.{parse_jsonl_accounts}

-- Every turn given to the engine is counted once in its report.
abbrev pub Reports : (List TurnInput → IngestReport) → Type 0
Reports ingest_many =
    (ts : List TurnInput)
    → (ingest_many ts).indexed + (ingest_many ts).duplicates + (ingest_many ts).rejected ≡ length ts

total_ingest_turns :
    (ingest_many : List TurnInput → IngestReport)
    → Reports ingest_many
    → (config_scope : Option String) (ts : List TurnInput)
    → let r = ingest_turns ingest_many config_scope ts in
      r.indexed + r.duplicates + r.rejected ≡ length ts
total_ingest_turns ingest_many counts config_scope [] = omega arith
total_ingest_turns ingest_many counts config_scope (t ∷ ts) = counts (t ∷ ts)

-- For an engine that counts every turn it is given once, as indexed, duplicate or rejected, the
-- reply of `zeromem_ingest` accounts for every line of the text that is not blank exactly once, and
-- lists at most twenty refused lines.
pub ingest_text_accounts :
    (ingest_many : List TurnInput → IngestReport)
    → Reports ingest_many
    → (config_scope : Option String) (read : String → Reading) (scope : Option String)
      (text : String)
    → let reply = ingest_text ingest_many config_scope read scope text in
      (reply.report.indexed + reply.report.duplicates + reply.report.rejected
        ≡ count_if (λ raw. not (is_empty (trim raw))) (split_lines false "" text))
      × (length reply.rejected_lines ≤ 20)
unfolding ingest_text
ingest_text_accounts ingest_many counts config_scope read scope text =
    let parsed = parse_jsonl read text in
    let filled = map (fill_scope (scope_of scope config_scope)) parsed.turns in
    (
      omega (
        arith,
        total_ingest_turns ingest_many counts config_scope filled,
        length-map (fill_scope (scope_of scope config_scope)) parsed.turns,
        (parse_jsonl_accounts read text).0,
      ),
      omega (arith, length-take 20 parsed.rejected),
    )
