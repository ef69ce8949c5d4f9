-- ===== src/Llm/Examples.antt =====
-- A model's replies as they are read (server/src/curator-agent/llm.ts).
use mcp_zeromem.Common.{ℕ, false, ◌≡◌, ◌≢◌, refl, ap, get_elem?, none, some, [], ◌∷◌, List, arith}
use mcp_zeromem.Common.Units.{Units, units, decimal}
use mcp_zeromem.Agent.{ToolCall}
use mcp_zeromem.Llm.{
  RawCall, missing, ChatResponse, strip_thinking, read_call, read_calls, read_completion,
  through_close, model_error, fits, answered, complete,
}
use mcp_zeromem.Llm.Thinking.{Piece, IsClosed, said_only, strip_thinking_blocks}
use mcp_zeromem.Llm.Ids.{default_ids_distinct}

abbrev pieces : List Piece
pieces = (units "So ", units "a < b, <think> or not</think>") ∷ []

pieces-IsClosed : IsClosed (units "a < b, <think> or not</think>")
unfolding through_close
pieces-IsClosed = refl

strip_thinking_blocks_example :
    strip_thinking 0 (units "So <think>a < b, <think> or not</think>done")
    ≡ said_only pieces (units "done")
strip_thinking_blocks_example =
    strip_thinking_blocks pieces (units "done") ((refl, pieces-IsClosed), tt) refl

abbrev stats_call : RawCall Units
stats_call = record { id = none; name = "zeromem_stats"; arguments = missing }

abbrev two_calls : List (RawCall Units)
two_calls = stats_call ∷ stats_call ∷ []

abbrev call_at : ℕ → ToolCall
call_at n = read_call (λ (j : Units). j) n stats_call

both_read : read_calls (λ j. j) 0 two_calls ≡ call_at 0 ∷ call_at 1 ∷ []
unfolding read_calls
both_read = refl

default_ids_distinct_example : (call_at 0).id ≢ (call_at 1).id
default_ids_distinct_example =
    default_ids_distinct (λ j. j) two_calls 0 1 stats_call stats_call (call_at 0) (call_at 1)
      (λ h. omega (arith, h)) refl refl refl refl (ap (λ cs. get_elem? cs 0) both_read)
      (ap (λ cs. get_elem? cs 1) both_read)

abbrev response : ChatResponse Units
response = record {
  choice = record {
    finish_reason = some "tool_calls";
    content = some (units "<think>which?</think> ");
    tool_calls = some (stats_call ∷ []);
  };
  prompt_tokens = some 7;
  completion_tokens = none;
}

-- Nothing is left of the content, so a call stands alone.
read_response : read_completion (λ j. j) response ≡ record {
  content = none;
  tool_calls = record { id = "call_0"; name = "zeromem_stats"; arguments = units "{}" } ∷ [];
  prompt_tokens = 7;
  completion_tokens = 0;
  truncated = false;
}
unfolding read_completion
read_response = refl

-- The address is the base URL without the slashes at its end.
asked :
    complete {T = ℕ}
      (λ j. j)
      (λ body. fits response)
      (λ address request. answered 503 (units "busy"))
      (units "http://a/v1//")
      "m"
      none
      []
      (1 ∷ [])
    ≡ model_error (units "model at http://a/v1/chat/completions answered 503: busy")
unfolding complete decimal
asked = refl
