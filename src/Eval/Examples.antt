-- ===== src/Eval/Examples.antt =====
-- Runs of server/src/answer-eval/eval.ts, and their theorems at concrete inputs.
use mcp_zeromem.Common.{
  ℕ, ◌+◌, ◌≤◌, String, true, false, ◌≡◌, refl, List, [], ◌∷◌, map, length, none, some, Option,
  get_elem?, arith, or_else,
}
use mcp_zeromem.Common.Units.{Units, units}
use mcp_zeromem.Agent.{ChatMessage, Completion, Parsed, object, Args, Reply, result}
use mcp_zeromem.Eval.{
  Question, Answered, correct, error, QuestionResult, current, history, sample, no_answer,
  summarise,
}
use mcp_zeromem.Eval.Answer.{run_question, run_answer_eval, answer_question}
use mcp_zeromem.Eval.Sample.{IsSpread, sample-IsSpread}
use mcp_zeromem.Eval.Summary.{
  or_nothing, judged, is_correct, is_wrong, is_abstained, is_unjudged, is_error, Counts,
  summarise_partition,
}
use mcp_zeromem.Eval.Verdicts.{answer_ends}

abbrev letters : List String
letters = "a" ∷ "b" ∷ "c" ∷ "d" ∷ "e" ∷ "f" ∷ "g" ∷ []

third_letters : sample letters (some 3) ≡ some "a" ∷ some "c" ∷ some "e" ∷ []
unfolding sample
third_letters = refl

sample-IsSpread_example :
    (is : List ℕ) × (sample letters (some 3) ≡ map (get_elem? letters) is)
    × (length is ≡ 3)
    × IsSpread 3 (length letters) 0 0 is
sample-IsSpread_example = sample-IsSpread letters 3 (omega arith)

abbrev parse : Units → Parsed
parse u = object (record { dry_run = false; actions = none })

abbrev call_tool : List ChatMessage → String → Args → Reply
call_tool sofar name args = result false []

abbrev reply : Units → Completion
reply text = record {
  content = some text;
  tool_calls = [];
  prompt_tokens = 7;
  completion_tokens = 1;
  truncated = false;
}

abbrev complete : List ChatMessage → Option Completion
complete ms = some (reply (units "Paris"))

abbrev answers : (ms : List ChatMessage) → (c : Completion) × (complete ms ≡ some c)
answers ms = (reply (units "Paris"), refl)

abbrev judge : List ChatMessage → Option Completion
judge ms = some (reply (units "NOT WRONG, SO CORRECT."))

abbrev question : Question
question = record {
  id = "q1";
  kind = "fact";
  query = units "Where?";
  relevant = record { uuid = "u"; grade = 2 } ∷ [];
  ask = current;
}

abbrev upper : Units → Units
upper u = u

abbrev text_of : String → Option Units
text_of uuid = some (units "In Paris.")

abbrev tools : List String
tools = "zeromem_recall" ∷ []

last_word_counts :
    (run_question parse call_tool upper complete judge text_of [] none tools question).verdict
    ≡ correct
unfolding run_question
last_word_counts = refl

answer_ends_test :
    (a : Answered) × (answer_question parse call_tool complete tools [] none none (units "Where?")
      ≡ some a)
    × (a.steps ≤ 6)
    × (a.cut_off ≡ true → a.answer ≡ [])
answer_ends_test = answer_ends parse call_tool complete tools answers [] none none (units "Where?")

abbrev results : List QuestionResult
results =
    record {
      id = "a";
      ask = current;
      kind = "k";
      question = [];
      answered = no_answer;
      verdict = correct;
      right = true;
    }
    ∷ record {
      id = "b";
      ask = history;
      kind = "k";
      question = [];
      answered = no_answer;
      verdict = error;
      right = false;
    }
    ∷ []

summarise_partition_example :
    (judged is_correct results
        + or_nothing (λ s. s.wrong) (summarise results none)
        + or_nothing (λ s. s.abstained) (summarise results none)
        + or_nothing (λ s. s.unjudged) (summarise results none)
        + or_nothing (λ s. s.errors) (summarise results none)
      ≡ or_nothing (λ s. s.questions) (summarise results none))
    × Counts (λ s. s.questions) (λ r. true) results
    × Counts (λ s. s.right) (λ r. r.right) results
    × Counts (λ s. s.wrong) (λ r. is_wrong r.verdict) results
    × Counts (λ s. s.abstained) (λ r. is_abstained r.verdict) results
    × Counts (λ s. s.unjudged) (λ r. is_unjudged r.verdict) results
    × Counts (λ s. s.errors) (λ r. is_error r.verdict) results
summarise_partition_example = summarise_partition results

one_run :
    map
      (λ (r : QuestionResult). r.right)
      (or_else
        (run_answer_eval parse call_tool upper complete judge text_of [] none tools (question ∷ []))
        [])
    ≡ true ∷ []
unfolding run_answer_eval
one_run = refl
