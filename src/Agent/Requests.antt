-- ===== src/Agent/Requests.antt =====
-- What the model is shown: the requests of `runCurator`, server/src/curator-agent/agent.ts.
use mcp_zeromem.Common.{
  ℕ, zero, suc, ◌≤◌, String, List, [], ◌∷◌, ◌++◌, ◌≡◌, ◌∙◌, refl, ap, Bool, Option, ◌⊎◌, inl, inr,
  or_else, All, if_keeps, if◌then◌else◌, length,
}
use mcp_zeromem.Common.Units.{Units}
use mcp_zeromem.Agent.{
  ChatMessage, system, user, assistant, tool, Parsed, Args, Reply, ToolCall, State, Completion,
  AgentOptions, RunResult, trim, total_size, opening, respond, respond_to, conclude, add_completion,
  handle_call, handle_calls, run_curator, served, run_result, not_closed,
}
use mcp_zeromem.Agent.Trim.{drop_oldest, drop_result, trim_oldest}
use mcp_zeromem.Agent.Pairing.{IsPaired, pending, pending-trim, respond-IsPaired}
use mcp_zeromem.Agent.Loop.{fitted, run_loop-agree}

-- The conversation begins with these two texts, as the system and the user.
abbrev pub Opens : Units → Units → List ChatMessage → Type 0
Opens a b ms = (rest : List ChatMessage) × (ms ≡ system a ∷ user b ∷ rest)

-- No result of a tool is left to drop.
abbrev pub IsDropped : ChatMessage → Type 0
IsDropped m = m ≡ drop_result m

abbrev pub Fits : ℕ → List ChatMessage → Type 0
Fits limit ms = (total_size ms ≤ limit) ⊎ All IsDropped ms

-- The first message of the conversation.
abbrev pub greeting : Units → Units
unfolding opening
greeting now = elim (opening now []).messages [ ◌∷◌ (system t) ms ↦ t | _ ↦ [] ]

abbrev pub IsRequest : ℕ → Units → Units → List ChatMessage → Type 0
IsRequest limit now task ms = Opens (greeting now) task ms × Fits limit ms × IsPaired ms

drop_result_twice : (m : ChatMessage) → IsDropped (drop_result m)
drop_result_twice (system t) = refl
drop_result_twice (user t) = refl
drop_result_twice (assistant t cs) = refl
drop_result_twice (tool id t) = refl

drop_oldest-IsDropped : (ms : List ChatMessage) → All IsDropped (drop_oldest (length ms) ms)
drop_oldest-IsDropped [] = tt
drop_oldest-IsDropped (m ∷ ms) = (drop_result_twice m, drop_oldest-IsDropped ms)

trim-Fits : (limit : ℕ) (ms : List ChatMessage) → Fits limit (trim limit ms)
trim-Fits limit ms =
    let (n, (e, fit, least)) = trim_oldest limit ms in
    elim fit [ inl f ↦ inl f | inr l ↦ inr (rw (e, l) (drop_oldest-IsDropped ms)) ]

drop_oldest-Opens :
    (a b : Units) (n : ℕ) (ms : List ChatMessage) → Opens a b ms → Opens a b (drop_oldest n ms)
drop_oldest-Opens a b zero ms h = h
drop_oldest-Opens a b (suc zero) ms (rest, e) = (rest, rw e refl)
drop_oldest-Opens a b (suc (suc n)) ms (rest, e) = (drop_oldest n rest, rw e refl)

trim-Opens :
    (a b : Units) (limit : ℕ) (ms : List ChatMessage) → Opens a b ms → Opens a b (trim limit ms)
trim-Opens a b limit ms h =
    let (n, (e, fit, least)) = trim_oldest limit ms in rw e (drop_oldest-Opens a b n ms h)

append-Opens : (a b : Units) (ms ms' : List ChatMessage) → Opens a b ms → Opens a b (ms ++ ms')
append-Opens a b ms ms' (rest, e) = (rest ++ ms', ap (λ l. l ++ ms') e)

module _ (parse : Units → Parsed) (call_tool : List ChatMessage → String → Args → Reply)
    (tools : List String) (a b : Units) where
  handle_calls-Opens :
      (limit : ℕ) (cs : List ToolCall) (s : State)
      → Opens a b s.messages
      → Opens a b (handle_calls parse call_tool tools limit cs s).messages
  unfolding handle_calls handle_call
  handle_calls-Opens limit [] s h = h
  handle_calls-Opens limit (c ∷ cs) s h =
      handle_calls-Opens limit cs _ (append-Opens a b s.messages _ h)

  respond_to-Opens :
      (cs : List ToolCall) (limit : ℕ) (c : Completion) (s : State)
      → Opens a b s.messages
      → Opens a b (respond_to parse call_tool tools cs limit c s).0.messages
  unfolding respond_to conclude
  respond_to-Opens [] limit c s h =
      if_keeps {A = State × Bool} (λ r. Opens a b r.0.messages) _ _ _
        (append-Opens a b s.messages (user not_closed ∷ []) h) h
  respond_to-Opens (call ∷ calls) limit c s h = handle_calls-Opens limit (call ∷ calls) s h

  abbrev Kept : State → Type 0
  Kept s = Opens a b s.messages × IsPaired s.messages

  respond-Kept :
      (tool_limit limit : ℕ) (c : Completion) (s : State)
      → Kept s
      → Kept (respond parse call_tool tools tool_limit c (fitted limit s)).0
  unfolding respond add_completion
  respond-Kept tool_limit limit c s (o, p) = (
    respond_to-Opens c.tool_calls tool_limit c _
        (append-Opens a b (trim limit s.messages) _ (trim-Opens a b limit s.messages o)),
    respond-IsPaired parse call_tool tools tool_limit c (fitted limit s)
        (pending-trim [] limit s.messages ∙ p),
  )

run_result-same :
    (curator : Bool) (o o' : Option State)
    → o ≡ o'
    → (if curator then run_result o else RunResult.not_curator)
      ≡ (if curator then run_result o' else RunResult.not_curator)
run_result-same curator o o' e = ap (λ z. if curator then run_result z else RunResult.not_curator) e

-- Two models that answer alike on the conversations a run may show them give the same run: those that begin with the
-- system's text and the task, in which every tool call is answered, in order, before anything else is said, and which
-- are no longer than `maxContextChars` unless every result of a tool in them is dropped already.
pub run_curator_requests :
    (parse : Units → Parsed) (call_tool : List ChatMessage → String → Args → Reply)
    (f g : List ChatMessage → Option Completion) (options : AgentOptions) (listing : List String)
    (now task : Units)
    → ((ms : List ChatMessage)
        → IsRequest (or_else options.max_context_chars 120000) now task ms
        → f ms ≡ g ms)
    → run_curator parse call_tool f options listing now task
      ≡ run_curator parse call_tool g options listing now task
unfolding run_curator opening pending
run_curator_requests parse call_tool f g options listing now task same =
    let limit = or_else options.max_context_chars 120000 in
    run_result-same _ _ _ (
      run_loop-agree parse call_tool (served listing) (or_else options.max_tool_chars 12000) limit
        (Kept parse call_tool (served listing) (greeting now) task)
        (respond-Kept parse call_tool (served listing) (greeting now) task
          (or_else options.max_tool_chars 12000) limit)
        f g
        (λ s (o, p). same (trim limit s.messages) (
          trim-Opens _ _ limit s.messages o,
          trim-Fits limit s.messages,
          pending-trim [] limit s.messages ∙ p,
        ))
        (or_else options.max_steps 40) (opening now task) (([], refl), refl))
