-- ===== src/Eval/Answer.antt =====
-- `answerQuestion`, `judgeAnswer` and `runAnswerEval` of server/src/answer-eval/eval.ts.
use mcp_zeromem.Common.{
  ℕ, zero, suc, ◌+◌, String, Bool, ◌&&◌, ◌||◌, Option, none, some, List, [], ◌∷◌, ◌++◌, map, leb,
  ◌==◌, if◌then◌else◌, or_else, any, all, length,
}
use mcp_zeromem.Common.Units.{Units, units, units_equal}
use mcp_zeromem.Agent.{
  ChatMessage, system, user, assistant, tool, ToolCall, Completion, Parsed, Args, Reply, relay,
  clip,
}
use mcp_zeromem.Eval.{
  Verdict, correct, wrong, abstained, unjudged, error, Question, Answered, QuestionResult,
  no_answer, add_request, is_empty_answer, is_right, references, memory_tools,
}

-- The code units that `trim` takes off.
unfoldable pub is_white : ℕ → Bool
is_white u =
    leb 9 u && leb u 13
    || any (λ w. w == u) (32 ∷ 160 ∷ 5760 ∷ 8232 ∷ 8233 ∷ 8239 ∷ 8287 ∷ 12288 ∷ 65279 ∷ [])
    || leb 8192 u && leb u 8202

abbrev pub is_blank : Units → Bool
is_blank t = all is_white t

-- `\w`
unfoldable pub is_word_unit : ℕ → Bool
is_word_unit u = leb 48 u && leb u 57 || leb 65 u && leb u 90 || u == 95 || leb 97 u && leb u 122

-- The maximal runs of word characters; `\b` stands at both ends of each.
unfoldable pub words : Units → Units → List Units
unfolding is_word_unit
words cur [] = cur ∷ []
words cur (u ∷ us) =
    let rest = words (if is_word_unit u then cur ++ u ∷ [] else []) us in
    if is_word_unit u then rest else cur ∷ rest

unfoldable pub verdict_word : Units → Option Verdict
unfolding units_equal
verdict_word w =
    if units_equal w (units "CORRECT")
    then some correct
    else if units_equal w (units "WRONG")
    then some wrong
    else if units_equal w (units "ABSTAINED")
    then some abstained
    else none

-- The last verdict among the words, `v` where there is none.
unfoldable pub last_verdict : Verdict → List Units → Verdict
unfolding verdict_word
last_verdict v [] = v
last_verdict v (w ∷ ws) = last_verdict (or_else (verdict_word w) v) ws

abbrev pub judge_rules : Units
judge_rules =
    units
      "You grade an answer to a question about past conversations. You are given the question, the reference statements that hold the right answer, and the answer to grade. Reply with one word: CORRECT if the answer gives the value the reference statements give for what the question asks. Extra detail is fine; a different value, or several values without choosing the right one, is not. ABSTAINED if the answer says it does not know or that the memory does not hold it. WRONG otherwise."

-- The references as the lines of a list.
unfoldable pub reference_lines : List Units → Units
reference_lines [] =
    units "(none: the conversations never state this, so the right answer is to say so)"
reference_lines (t ∷ []) = units "- " ++ t
reference_lines (t ∷ u ∷ ts) = units "- " ++ t ++ units "\n" ++ reference_lines (u ∷ ts)

-- `upper` is `toUpperCase`; `judge` is the request of the grader, `none` where it fails.
module _ (upper : Units → Units) (judge : List ChatMessage → Option Completion) where
  unfoldable pub graded : Option Completion → Option Verdict
  unfolding words last_verdict
  graded none = none
  graded (some c) = some (last_verdict unjudged (words [] (upper (or_else c.content []))))

  unfoldable pub judge_answer : Units → List Units → Units → Option Verdict
  unfolding is_white graded reference_lines
  judge_answer question refs answer =
      if is_blank answer
      then some wrong
      else graded (
          judge (
            system judge_rules
            ∷ user (
                units "Question: "
                ++ question
                ++ units "\n\nReference statements:\n"
                ++ reference_lines refs
                ++ units "\n\nAnswer: "
                ++ answer)
            ∷ []))

module _ (parse : Units → Parsed) (call_tool : List ChatMessage → String → Args → Reply)
    (complete : List ChatMessage → Option Completion) (tools : List String) where
  unfoldable pub add_results : ℕ → List ToolCall → List ChatMessage → List ChatMessage
  unfolding relay clip
  add_results limit [] messages = messages
  add_results limit (call ∷ calls) messages =
      let outcome = relay parse call_tool tools messages call in
      add_results limit calls (messages ++ tool call.id (clip outcome.text limit) ∷ [])

  -- A reply without calls is the answer; else the loop goes on with the results.
  unfoldable pub answer_with :
      (List ChatMessage → Answered → Option Answered)
      → ℕ
      → Completion
      → List ToolCall
      → List ChatMessage
      → Answered
      → Option Answered
  unfolding add_results
  answer_with rest limit c [] messages out =
      let answer = or_else c.content [] in
      some (record out { answer = answer; cut_off = c.truncated && is_empty_answer answer })
  answer_with rest limit c (call ∷ calls) messages out =
      rest (add_results limit (call ∷ calls) messages)
        (record out { tool_calls = out.tool_calls + length (call ∷ calls) })

  abbrev pub with_reply : (Completion → Option Answered) → Option Completion → Option Answered
  with_reply next none = none
  with_reply next (some c) = next c

  -- `left` is the requests that `maxSteps` still allows.
  unfoldable pub answer_loop : ℕ → ℕ → List ChatMessage → Answered → Option Answered
  unfolding answer_with
  answer_loop limit zero messages out = some out
  answer_loop limit (suc left) messages out =
      with_reply
        (λ c.
          answer_with (answer_loop limit left) limit c c.tool_calls
            (messages ++ assistant c.content c.tool_calls ∷ []) (add_request c out))
        (complete messages)

  -- `day` is the last day of the conversations. `none` is a failed request.
  unfoldable pub answer_question : Units → Option ℕ → Option ℕ → Units → Option Answered
  unfolding answer_loop
  answer_question day max_steps max_tool_chars question =
      answer_loop (or_else max_tool_chars 12000) (or_else max_steps 6)
        (system (
            units
              "You answer questions about past conversations. You remember nothing of them yourself: everything you know about them comes from the memory tools, so search before you answer. The conversations end on "
            ++ day
            ++ units
                ". Answer in one sentence with the specific value asked for. If the memory does not hold the answer, reply exactly: I don't know.")
          ∷ user question
          ∷ [])
        no_answer

module _ (parse : Units → Parsed) (call_tool : List ChatMessage → String → Args → Reply)
    (upper : Units → Units) (complete judge : List ChatMessage → Option Completion)
    (text_of : String → Option Units) (day : Units) (max_steps : Option ℕ) where
  unfoldable pub result_of : Question → Answered → Verdict → QuestionResult
  unfolding is_right
  result_of q answered verdict = record {
    id = q.id;
    ask = q.ask;
    kind = q.kind;
    question = q.query;
    answered = answered;
    verdict = verdict;
    right = is_right q verdict;
  }

  -- What the `catch` makes of a failed request: an error, with the answer if there was one.
  unfoldable pub grade_answer : Question → Option Answered → QuestionResult
  unfolding judge_answer references result_of
  grade_answer q none = result_of q no_answer error
  grade_answer q (some answered) =
      result_of q answered
        (or_else (judge_answer upper judge q.query (references q text_of) answered.answer) error)

  unfoldable pub run_question : List String → Question → QuestionResult
  unfolding grade_answer answer_question
  run_question tools q =
      grade_answer q (answer_question parse call_tool complete tools day max_steps none q.query)

  unfoldable pub run_questions : Option (List String) → List Question → Option (List QuestionResult)
  unfolding run_question
  run_questions none qs = none
  run_questions (some tools) qs = some (map (run_question tools) qs)

  unfoldable pub run_answer_eval : List String → List Question → Option (List QuestionResult)
  unfolding run_questions memory_tools
  run_answer_eval listing qs = run_questions (memory_tools listing) qs
