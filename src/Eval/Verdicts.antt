-- ===== src/Eval/Verdicts.antt =====
-- The verdicts and the bounds of the runs of server/src/answer-eval/eval.ts.
use mcp_zeromem.Common.{
  ℕ, zero, suc, ◌+◌, ◌≤◌, String, List, [], ◌∷◌, ◌++◌, ◌≡◌, ◌&&◌, ◌∙◌, refl, ap, Option, some, Bool,
  true, false, arith, or_else,
}
use mcp_zeromem.Common.Units.{Units}
use mcp_zeromem.Agent.{ChatMessage, assistant, ToolCall, Completion, Parsed, Args, Reply}
use mcp_zeromem.Eval.{
  Verdict, error, Question, Answered, no_answer, add_request, is_empty_answer, references,
  same_verdict,
}
use mcp_zeromem.Eval.Answer.{
  judge_answer, answer_question, answer_loop, answer_with, with_reply, grade_answer,
}

abbrev IsGrade : Verdict → Type 0
IsGrade v = same_verdict error v ≡ false

module _ (parse : Units → Parsed) (call_tool : List ChatMessage → String → Args → Reply)
    (upper : Units → Units) (complete judge : List ChatMessage → Option Completion)
    (text_of : String → Option Units) (day : Units) (max_steps : Option ℕ) where
  abbrev grade : Question → Option Answered → Verdict
  unfolding grade_answer
  grade q o = (grade_answer parse call_tool upper complete judge text_of day max_steps q o).verdict

  abbrev judged : Question → Answered → Option Verdict
  judged q a = judge_answer upper judge q.query (references q text_of) a.answer

module _ (parse : Units → Parsed) (call_tool : List ChatMessage → String → Args → Reply)
    (complete : List ChatMessage → Option Completion) (tools : List String)
    (answers : (ms : List ChatMessage) → (c : Completion) × (complete ms ≡ some c)) where
  -- An answer within so many steps; one that was cut off is empty.
  abbrev Ends : ℕ → Option Answered → Type 0
  Ends limit o =
      (a : Answered) × (o ≡ some a) × (a.steps ≤ limit) × (a.cut_off ≡ true → a.answer ≡ [])

  emptied : (truncated : Bool) (t : Units) → (truncated && is_empty_answer t) ≡ true → t ≡ []
  emptied true [] h = refl
  emptied true (u ∷ us) h = absurd (cc)
  emptied false t h = absurd (cc)

  answer_with-Ends :
      (rest : List ChatMessage → Answered → Option Answered) (left : ℕ)
      → ((ms : List ChatMessage) (out : Answered)
          → out.cut_off ≡ false
          → Ends (out.steps + left) (rest ms out))
      → (limit : ℕ) (c : Completion) (calls : List ToolCall) (ms : List ChatMessage)
        (out : Answered)
      → out.cut_off ≡ false
      → Ends
          (out.steps + left)
          (answer_with parse call_tool complete tools rest limit c calls ms out)
  unfolding answer_with
  answer_with-Ends rest left later limit c [] ms out h =
      (_, refl, omega arith, λ e. emptied c.truncated (or_else c.content []) e)
  answer_with-Ends rest left later limit c (call ∷ calls) ms out h = later _ _ h

  answer_loop-Ends :
      (limit left : ℕ) (ms : List ChatMessage) (out : Answered)
      → out.cut_off ≡ false
      → Ends (out.steps + left) (answer_loop parse call_tool complete tools limit left ms out)
  unfolding answer_loop
  answer_loop-Ends limit zero ms out h = (out, refl, omega arith, λ e. absurd (cc))
  answer_loop-Ends limit (suc left) ms out h =
      let (c, e) = answers ms in
      let (a, q, below, cut) =
        answer_with-Ends (answer_loop parse call_tool complete tools limit left) left
          (answer_loop-Ends limit left) limit c c.tool_calls
          (ms ++ assistant c.content c.tool_calls ∷ []) (add_request c out) h in
      (a, ap (with_reply parse call_tool complete tools _) e ∙ q, omega arith, cut)

  -- While the model's requests do not fail, a question is answered, within the steps allowed (six by default), and an
  -- answer marked as cut off is empty.
  pub answer_ends :
      (day : Units) (max_steps max_tool_chars : Option ℕ) (question : Units)
      → (a : Answered) × (answer_question parse call_tool complete tools day max_steps
            max_tool_chars question
          ≡ some a)
        × (a.steps ≤ or_else max_steps 6)
        × (a.cut_off ≡ true → a.answer ≡ [])
  unfolding answer_question
  answer_ends day max_steps max_tool_chars question =
      let (a, q, below, cut) =
        answer_loop-Ends (or_else max_tool_chars 12000) (or_else max_steps 6) _ no_answer refl in
      (a, q, omega arith, cut)
