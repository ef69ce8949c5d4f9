-- ===== src/Ingest/Examples.antt =====
-- Texts and paths for server/src/gateway/tools/remember.ts and server/src/engine/jsonl.ts.
use Prim.Native.String.{String}
use mcp_zeromem.Common.{
  str_eq, if◌then◌else◌, ◌+◌, ◌≤◌, Bool, true, false, not, ◌≡◌, ◌↔◌, refl, none, some, List, [],
  ◌∷◌, ◌++◌, map, arith, All, length,
}
use mcp_zeromem.Common.Sort.{count_if}
use mcp_zeromem.Common.Text.{is_space, trim, is_empty, utf16_length}
use mcp_zeromem.Memory.{TurnInput, IngestReport, parse_turn}
use mcp_zeromem.Ingest.{
  Reading, turn, refused, inline, split_lines, parse_jsonl, remember, ingest_text, ingest_source,
  scope_of,
}
use mcp_zeromem.Ingest.Lines.{join_lines, Located, split_lines-join_lines, parse_jsonl_accounts}
use mcp_zeromem.Ingest.Report.{Reports, ingest_text_accounts}
use mcp_zeromem.Ingest.Paths.{
  IsPlain, resolve, root_parts, relative, leaves, resolve_under, resolve_under_confined,
}

abbrev turn_of : String → TurnInput
turn_of s = record {
  session_id = "s";
  speaker = "user";
  text = s;
  ts = none;
  uuid = none;
  scope = none;
}

-- A reader that takes `[` for the sign of a line that is not JSON.
abbrev read : String → Reading
read s = if◌then◌else◌ (str_eq s "[") (refused "not JSON") (turn (turn_of s))

abbrev text : String
text = "a\r\n\n[\nb"

two_lines : split_lines false "" "a\r\nb" ≡ "a" ∷ "b" ∷ []
unfolding split_lines
two_lines = refl

third_refused : (parse_jsonl read text).rejected ≡ record { line = 3; reason = "not JSON" } ∷ []
unfolding parse_jsonl is_space trim
third_refused = refl

-- A blank scope steps out of the configured one.
blank_scope : scope_of (some "") (some "project:atlas") ≡ none
unfolding scope_of
blank_scope = refl

one_source : ingest_source (some "x") none ≡ inline "x"
unfolding ingest_source
one_source = refl

empty_text : parse_turn (turn_of "") ≡ none
unfolding parse_turn utf16_length
empty_text = refl

inside : resolve_under "/data" "in/../turns.jsonl" ≡ some ("data" ∷ "turns.jsonl" ∷ [])
unfolding resolve_under resolve root_parts relative leaves
inside = refl

outside : resolve_under "/data" "../etc/passwd" ≡ none
unfolding resolve_under resolve root_parts relative leaves
outside = refl

-- A file of the data directory whose name begins with two dots is refused too.
dotted_name : resolve_under "/data" "..turns.jsonl" ≡ none
unfolding resolve_under resolve root_parts relative leaves
dotted_name = refl

resolve_under_confined_example : (resolve_under "/data" "a" ≡ some ("data" ∷ "a" ∷ [])) ↔ (
    (resolve "/data" "a" ≡ "data" ∷ "a" ∷ [])
    × ((rest : List String) × (root_parts "/data" ++ rest ≡ "data" ∷ "a" ∷ [])
        × All IsPlain rest
        × (leaves rest ≡ false)))
resolve_under_confined_example = resolve_under_confined "/data" "a" ("data" ∷ "a" ∷ [])

abbrev ends : List (String × Bool)
ends = ("a", true) ∷ ("b", false) ∷ []

lines_back : split_lines false "" (join_lines ends "c") ≡ map (λ l. l.0) ends ++ "c" ∷ []
lines_back = split_lines-join_lines ends "c" (omega arith) (omega arith)

parse_jsonl_accounts_test :
    (length (parse_jsonl read text).turns + length (parse_jsonl read text).rejected
      ≡ count_if (λ raw. not (is_empty (trim raw))) (split_lines false "" text))
    × All (Located read 1 (split_lines false "" text)) (parse_jsonl read text).rejected
parse_jsonl_accounts_test = parse_jsonl_accounts read text

abbrev index_all : List TurnInput → IngestReport
index_all ts = record { indexed = length ts; duplicates = 0; rejected = 0 }

index_all-Reports : Reports index_all
index_all-Reports ts = omega arith

remembered_two :
    (remember index_all none "s" none
      (record { speaker = "u"; text = "x"; ts = none; uuid = none } ∷ [])).indexed
    ≡ 1
unfolding remember
remembered_two = refl

ingest_text_accounts_example :
    let reply = ingest_text index_all none read none text in
    (reply.report.indexed + reply.report.duplicates + reply.report.rejected
      ≡ count_if (λ raw. not (is_empty (trim raw))) (split_lines false "" text))
    × (length reply.rejected_lines ≤ 20)
ingest_text_accounts_example = ingest_text_accounts index_all index_all-Reports none read none text
