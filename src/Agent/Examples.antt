-- ===== src/Agent/Examples.antt =====
-- A run of the curator of server/src/curator-agent/agent.ts, and its theorems at concrete states.
use mcp_zeromem.Common.{
  All, ℕ, ◌≤◌, ◌<◌, String, true, false, ◌≡◌, refl, ◌⊎◌, List, [], ◌∷◌, length, none, some, Option,
  if◌then◌else◌, ◌==◌, or_else,
}
use mcp_zeromem.Common.Sort.{count_if}
use mcp_zeromem.Common.Units.{Units}
use mcp_zeromem.Agent.{
  ChatMessage, user, tool, ToolCall, Parsed, object, Args, Reply, result, Completion, State,
  AgentOptions, trim, total_size, opening, run_loop, run_curator, can_apply, apply_tool, closes_run,
}
use mcp_zeromem.Agent.Trim.{below, drop_oldest, trim_oldest}
use mcp_zeromem.Agent.Requests.{IsRequest, run_curator_requests}
use mcp_zeromem.Agent.Counts.{
  is_assistant, is_result, is_user, calls_counted, calls_in, is_ordinary,
}
use mcp_zeromem.Agent.Run.{report_accounts}
use mcp_zeromem.Agent.Ends.{finished_excused}

abbrev parse : Units → Parsed
parse u = object (record { dry_run = false; actions = some (some "run_end" ∷ []) })

abbrev call_tool : List ChatMessage → String → Args → Reply
call_tool sofar name args = result false (5 ∷ 6 ∷ 7 ∷ [])

abbrev call : ToolCall
call = record { id = "c1"; name = "zeromem_curate_apply"; arguments = [] }

-- Applies the end of the run first, and then says so.
abbrev complete : List ChatMessage → Option Completion
complete ms = some (record {
  content = some (1 ∷ []);
  tool_calls = if length ms == 2 then call ∷ [] else [];
  prompt_tokens = 10;
  completion_tokens = 2;
  truncated = false;
})

abbrev answers : (ms : List ChatMessage) → (c : Completion) × (complete ms ≡ some c)
answers ms = (_, refl)

abbrev tools : List String
tools = "zeromem_curate_apply" ∷ []

abbrev options : AgentOptions
options = record { max_steps = some 5; max_tool_chars = none; max_context_chars = some 2 }

abbrev start : State
start = opening [] (3 ∷ [])

abbrev ended : State
unfolding run_loop opening
ended = or_else (run_loop parse call_tool tools complete 100 1000 5 start) start

ends_there : run_loop parse call_tool tools complete 100 1000 5 start ≡ some ended
unfolding run_loop opening
ends_there = refl

two_steps : ended.report.steps ≡ 2
unfolding run_loop opening
two_steps = refl

abbrev talk : List ChatMessage
talk = user (1 ∷ []) ∷ tool "c1" [] ∷ tool "c2" (1 ∷ 2 ∷ 3 ∷ []) ∷ []

trim_oldest_example :
    (n : ℕ) × ((trim 100 talk ≡ drop_oldest n talk)
      × ((total_size (trim 100 talk) ≤ 100) ⊎ (n ≡ length talk))
      × All (λ k. 100 < total_size (drop_oldest k talk)) (below n))
trim_oldest_example = trim_oldest 100 talk

-- Fails on conversations that no run shows.
abbrev picky : List ChatMessage → Option Completion
picky [] = none
picky (user t ∷ ms) = none
picky (m ∷ ms) = complete (m ∷ ms)

picky-same : (ms : List ChatMessage) → IsRequest 2 [] (3 ∷ []) ms → complete ms ≡ picky ms
picky-same ms ((rest, e), fits, paired) = rw e refl

run_curator_requests_example :
    run_curator parse call_tool complete options tools [] (3 ∷ [])
    ≡ run_curator parse call_tool picky options tools [] (3 ∷ [])
run_curator_requests_example =
    run_curator_requests parse call_tool complete picky options tools [] (3 ∷ []) picky-same

report_accounts_example :
    (ended.report.steps ≡ count_if is_assistant ended.messages)
    × (calls_counted ended.report.tool_calls.counts ≡ calls_in is_ordinary ended.messages)
    × (count_if is_result ended.messages ≡ calls_in (λ c. true) ended.messages)
    × (ended.report.tool_errors ≤ count_if is_result ended.messages)
    × (count_if is_user ended.messages ≡ (if ended.nudged then 2 else 1))
    × ((ended.report.closed ≡ false)
        ⊎ ((sofar : List ChatMessage) × (args : Args) × (text : Units) × (call_tool sofar apply_tool
                args
              ≡ result false text)
            × (closes_run args ≡ true)))
report_accounts_example =
    report_accounts parse call_tool complete tools 100 1000 5 [] (3 ∷ []) ended ends_there

excused :
    (ended.report.closed ≡ true) ⊎ (can_apply parse call_tool tools ≡ false) ⊎ (ended.nudged ≡ true)
excused =
    finished_excused parse call_tool complete tools 100 1000 5 [] (3 ∷ []) ended ends_there
      (unfold run_loop opening in refl)
