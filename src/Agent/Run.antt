-- ===== src/Agent/Run.antt =====
-- What the report of `runCurator`, server/src/curator-agent/agent.ts, says of the conversation.
use mathlib.Core.Path.{subst}
use mcp_zeromem.Common.{
  ◌⊎◌, inl, inr, Bool-cases, ℕ, suc, length, ◌+◌, ◌≤◌, String, List, [], ◌∷◌, ◌++◌, ◌≡◌, ◌∙◌, refl,
  sym, Bool, true, false, not, ◌&&◌, ◌||◌, Option, none, some, or_else, str_eq, eq_iff, if_keeps,
  if_cases, if◌then◌else◌, arith,
}
use mcp_zeromem.Common.Sort.{count_if, count_if-append}
use mcp_zeromem.Common.Units.{Units}
use mcp_zeromem.Agent.{
  ChatMessage, user, assistant, tool, Parsed, Args, Reply, result, thrown, ToolCall, State,
  Completion, opening, respond, respond_to, conclude, add_completion, relay, answer, relay_parsed,
  listed, object, malformed, handle_call, handle_calls, run_loop, not_closed, apply_tool,
  closes_run, can_apply, closes, clip,
}
use mcp_zeromem.Agent.Counts.{
  is_assistant, is_result, is_user, calls_counted, calls_counted-count_call, is_ordinary, calls_in,
  calls_in-append, calls_in-trim, count_if-trim, same_assistant, same_result, same_user,
}
use mcp_zeromem.Agent.Loop.{fitted, run_loop-keeps}

add_zero : (n : ℕ) → n + 0 ≡ n
add_zero n = omega arith

all_three : (a b c : Bool) → (not a && b && c) ≡ true → (a ≡ false) × (b ≡ true) × (c ≡ true)
all_three true b c h = absurd (cc)
all_three false false c h = absurd (cc)
all_three false true c h = (refl, refl, h)

not_asked : (can closed nudged : Bool) → (can && not closed && not nudged) ≡ true → nudged ≡ false
not_asked can closed nudged h = ground arith

asked_once : (k : ℕ) (nudged : Bool) → nudged ≡ false → k ≡ (if nudged then 2 else 1) → k + 1 ≡ 2
asked_once k nudged n e = ground arith

either : {G : Type 0} (a b : Bool) → (a || b) ≡ true → (a ≡ true → G) → (b ≡ true → G) → G
either true b h f g = f refl
either false b h f g = g h

counted_step :
    (b : Bool) (before after pending said said' : ℕ)
    → before + (if b then suc pending else pending) ≡ said
    → after ≡ (if b then before + 1 else before)
    → said' ≡ said + 0
    → after + pending ≡ said'
counted_step b before after pending said said' p q r = ground arith

count_all : (cs : List ToolCall) → count_if (λ c. true) cs ≡ length cs
unfolding count_if
count_all [] = refl
count_all (c ∷ cs) = omega (arith, count_all cs)

module _ (parse : Units → Parsed) (call_tool : List ChatMessage → String → Args → Reply)
    (tools : List String) where
  -- The server has answered, without an error, an apply whose actions end the run.
  abbrev pub Accepted : Type 0
  Accepted =
      (sofar : List ChatMessage) × (args : Args) × (text : Units) × (call_tool sofar apply_tool args
        ≡ result false text)
      × (closes_run args ≡ true)

  -- What holds while the calls of the last reply are still to be made.
  abbrev pub IsTrue : List ToolCall → State → Type 0
  IsTrue pending s =
      (s.report.steps ≡ count_if is_assistant s.messages)
      × (calls_counted s.report.tool_calls.counts + count_if is_ordinary pending
          ≡ calls_in is_ordinary s.messages)
      × (count_if is_result s.messages + length pending ≡ calls_in (λ c. true) s.messages)
      × (s.report.tool_errors ≤ count_if is_result s.messages)
      × (count_if is_user s.messages ≡ (if s.nudged then 2 else 1))
      × (s.report.closed ≡ true → Accepted)

  reply-Accepted :
      (sofar : List ChatMessage) (name : String) (args : Args) (r : Reply)
      → call_tool sofar name args ≡ r
      → str_eq name apply_tool ≡ true
      → (answer parse call_tool tools args r).is_error ≡ false
      → closes parse call_tool tools (answer parse call_tool tools args r).args ≡ true
      → Accepted
  unfolding answer
  reply-Accepted sofar name args (result true t) q n e h = absurd (cc)
  reply-Accepted sofar name args (thrown t) q n e h = absurd (cc)
  reply-Accepted sofar name args (result false t) q n e h = (
    sofar,
    args,
    t,
    subst (λ k. call_tool sofar k args ≡ result false t) ((eq_iff name apply_tool).0 n) q,
    h,
  )

  parsed-Accepted :
      (sofar : List ChatMessage) (name : String) (p : Parsed)
      → str_eq name apply_tool ≡ true
      → (relay_parsed parse call_tool tools sofar name p).is_error ≡ false
      → closes parse call_tool tools (relay_parsed parse call_tool tools sofar name p).args ≡ true
      → Accepted
  unfolding relay_parsed
  parsed-Accepted sofar name (malformed t) n e h = absurd (cc)
  parsed-Accepted sofar name (object args) n e h =
      reply-Accepted sofar name args (call_tool sofar name args) refl n e h

  listed-Accepted :
      (sofar : List ChatMessage) (name : String) (p : Parsed) (b : Bool) (t : Units)
      → str_eq name apply_tool ≡ true
      → (if b
          then relay_parsed parse call_tool tools sofar name p
          else record { args = none; text = t; is_error = true }).is_error
        ≡ false
      → closes parse call_tool tools
          (if b
            then relay_parsed parse call_tool tools sofar name p
            else record { args = none; text = t; is_error = true }).args
        ≡ true
      → Accepted
  listed-Accepted sofar name p true t n e h = parsed-Accepted sofar name p n e h
  listed-Accepted sofar name p false t n e h = absurd (cc)

  relay-Accepted :
      (sofar : List ChatMessage) (c : ToolCall)
      → (not (relay parse call_tool tools sofar c).is_error
          && str_eq c.name apply_tool
          && closes parse call_tool tools (relay parse call_tool tools sofar c).args)
        ≡ true
      → Accepted
  unfolding relay
  relay-Accepted sofar c h =
      let (e, n, k) = all_three (relay parse call_tool tools sofar c).is_error _ _ h in
      listed-Accepted sofar c.name (parse c.arguments) (listed tools c.name) _ n e k

  handle_call-IsTrue :
      (limit : ℕ) (c : ToolCall) (cs : List ToolCall) (s : State)
      → IsTrue (c ∷ cs) s
      → IsTrue cs (handle_call parse call_tool tools limit c s)
  unfolding handle_call count_if
  handle_call-IsTrue limit c cs s (a, b, r, e, u, h) =
      let m = tool c.id (clip (relay parse call_tool tools s.messages c).text limit) in
      (
        omega (arith, count_if-append is_assistant s.messages (m ∷ [])),
        counted_step (is_ordinary c) _ _ _ _ _ b (calls_counted-count_call c s.report.tool_calls)
            (calls_in-append is_ordinary s.messages (m ∷ [])),
        omega (
          arith,
          count_if-append is_result s.messages (m ∷ []),
          calls_in-append (λ k. true) s.messages (m ∷ []),
        ),
        if_keeps (λ n. n ≤ count_if is_result (s.messages ++ m ∷ []))
            (relay parse call_tool tools s.messages c).is_error (s.report.tool_errors + 1)
            s.report.tool_errors (omega (arith, count_if-append is_result s.messages (m ∷ [])))
            (omega (arith, count_if-append is_result s.messages (m ∷ []))),
        count_if-append is_user s.messages (m ∷ []) ∙ add_zero _ ∙ u,
        λ q. either _ _ q h (relay-Accepted s.messages c),
      )

  handle_calls-IsTrue :
      (limit : ℕ) (cs : List ToolCall) (s : State)
      → IsTrue cs s
      → IsTrue [] (handle_calls parse call_tool tools limit cs s)
  unfolding handle_calls
  handle_calls-IsTrue limit [] s h = h
  handle_calls-IsTrue limit (c ∷ cs) s h =
      handle_calls-IsTrue limit cs _ (handle_call-IsTrue limit c cs s h)

  asked-IsTrue :
      (s : State)
      → s.nudged ≡ false
      → IsTrue [] s
      → IsTrue [] (record s { nudged = true; messages = s.messages ++ user not_closed ∷ [] })
  unfolding count_if
  asked-IsTrue s n (a, b, r, e, u, h) = (
    omega (arith, count_if-append is_assistant s.messages (user not_closed ∷ [])),
    omega (arith, calls_in-append is_ordinary s.messages (user not_closed ∷ [])),
    omega (
      arith,
      count_if-append is_result s.messages (user not_closed ∷ []),
      calls_in-append (λ k. true) s.messages (user not_closed ∷ []),
    ),
    omega (arith, count_if-append is_result s.messages (user not_closed ∷ [])),
    count_if-append is_user s.messages (user not_closed ∷ []) ∙ asked_once _ s.nudged n u,
    h,
  )

  fitted-IsTrue : (limit : ℕ) (s : State) → IsTrue [] s → IsTrue [] (fitted limit s)
  fitted-IsTrue limit s (a, b, r, e, u, h) = (
    a ∙ sym (count_if-trim is_assistant same_assistant limit s.messages),
    b ∙ sym (calls_in-trim is_ordinary limit s.messages),
    omega (
      arith,
      count_if-trim is_result same_result limit s.messages,
      calls_in-trim (λ k. true) limit s.messages,
    ),
    omega (arith, count_if-trim is_result same_result limit s.messages),
    count_if-trim is_user same_user limit s.messages ∙ u,
    h,
  )

  add_completion-IsTrue :
      (c : Completion) (s : State)
      → IsTrue [] s
      → IsTrue c.tool_calls (add_completion parse call_tool tools c s)
  unfolding add_completion count_if
  add_completion-IsTrue c s (a, b, r, e, u, h) =
      let m = assistant c.content c.tool_calls in
      (
        omega (arith, count_if-append is_assistant s.messages (m ∷ [])),
        omega (arith, calls_in-append is_ordinary s.messages (m ∷ [])),
        omega (
          arith,
          count_if-append is_result s.messages (m ∷ []),
          calls_in-append (λ k. true) s.messages (m ∷ []),
          count_all c.tool_calls,
        ),
        omega (arith, count_if-append is_result s.messages (m ∷ [])),
        count_if-append is_user s.messages (m ∷ []) ∙ add_zero _ ∙ u,
        h,
      )

  -- The test of `conclude` is true only of a run that was not asked yet, and false only of one that
  -- was, or was closed, or could not be.
  conclude-IsTrue :
      (c : Completion) (s : State) → IsTrue [] s → IsTrue [] (conclude parse call_tool tools c s).0
  unfolding conclude
  conclude-IsTrue c s h =
      if_cases {A = State × Bool} (λ r. IsTrue [] r.0)
        (can_apply parse call_tool tools && not s.report.closed && not s.nudged) _ _
        (λ e.
          asked-IsTrue (record s { report = record s.report { summary = or_else c.content [] } })
            (not_asked (can_apply parse call_tool tools) s.report.closed s.nudged e) h)
        (λ e. h)

  respond_to-IsTrue :
      (cs : List ToolCall) (limit : ℕ) (c : Completion) (s : State)
      → IsTrue cs s
      → IsTrue [] (respond_to parse call_tool tools cs limit c s).0
  unfolding respond_to
  respond_to-IsTrue [] limit c s h = conclude-IsTrue c s h
  respond_to-IsTrue (call ∷ calls) limit c s h = handle_calls-IsTrue limit (call ∷ calls) s h

  respond-IsTrue :
      (tool_limit limit : ℕ) (c : Completion) (s : State)
      → IsTrue [] s
      → IsTrue [] (respond parse call_tool tools tool_limit c (fitted limit s)).0
  unfolding respond
  respond-IsTrue tool_limit limit c s h =
      respond_to-IsTrue c.tool_calls tool_limit c _
        (add_completion-IsTrue c (fitted limit s) (fitted-IsTrue limit s h))

-- In the state that a run ends in, however it ends, the report counts one step for each reply of the model, and one
-- tool call for each call in those replies whose name is not one that object literals inherit; each call has
-- a result, and there are no more errors than results. The report says that the run is closed only if the server has
-- answered, without an error, an apply whose actions end the run and which is not a dry run; and the model was
-- asked to close the run at most once.
pub report_accounts :
    (parse : Units → Parsed) (call_tool : List ChatMessage → String → Args → Reply)
    (complete : List ChatMessage → Option Completion) (tools : List String)
    (tool_limit limit left : ℕ) (now task : Units) (s : State)
    → run_loop parse call_tool tools complete tool_limit limit left (opening now task) ≡ some s
    → (s.report.steps ≡ count_if is_assistant s.messages)
      × (calls_counted s.report.tool_calls.counts ≡ calls_in is_ordinary s.messages)
      × (count_if is_result s.messages ≡ calls_in (λ c. true) s.messages)
      × (s.report.tool_errors ≤ count_if is_result s.messages)
      × (count_if is_user s.messages ≡ (if s.nudged then 2 else 1))
      × ((s.report.closed ≡ false)
          ⊎ ((sofar : List ChatMessage) × (args : Args) × (text : Units) × (call_tool sofar
                  apply_tool args
                ≡ result false text)
              × (closes_run args ≡ true)))
unfolding opening count_if
report_accounts parse call_tool complete tools tool_limit limit left now task s q =
    let (steps, calls, results, errors, asked, closed) =
      run_loop-keeps parse call_tool tools tool_limit limit (IsTrue parse call_tool tools [])
        (respond-IsTrue parse call_tool tools tool_limit limit) complete left (opening now task) s
        (refl, refl, refl, omega arith, refl, λ e. absurd (cc)) q in
    (
      steps,
      sym (add_zero _) ∙ calls,
      sym (add_zero _) ∙ results,
      errors,
      asked,
      elim (Bool-cases s.report.closed) [ inl on ↦ inr (closed on) | inr off ↦ inl off ],
    )
