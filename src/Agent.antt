-- ===== src/Agent.antt =====
-- server/src/curator-agent/agent.ts: the curation run. Message texts are lists of UTF-16 code units.
-- The model (`complete`) and the MCP client (`call_tool`) are functions of the conversation so far;
-- each is asked at most once at a given length of it, so they may answer anything at any time.
pub mod Trim
pub mod Pairing
pub mod Loop
pub mod Requests
pub mod Counts
pub mod Run
pub mod Ends
mod Examples
use Prim.Native.String
use mcp_zeromem.Common.{
  ℕ, zero, suc, ◌+◌, ◌-◌, String, Bool, true, false, not, ◌&&◌, ◌||◌, Option, none, some, List, [],
  ◌∷◌, ◌++◌, map, leb, ◌==◌, str_eq, if◌then◌else◌, or_else, any, length, take, keep_if,
}
use mcp_zeromem.Common.Units.{Units, units, units_equal, decimal}
use text.Mathlib.Text.{starts_with}

pub record ToolCall : Type 0 where
  pub id : String
  pub name : String
  pub arguments : Units

pub data ChatMessage : Type 0 where
  system : Units → ChatMessage
  user : Units → ChatMessage
  assistant : Option Units → List ToolCall → ChatMessage
  tool : String → Units → ChatMessage

pub record Completion : Type 0 where
  pub content : Option Units
  pub tool_calls : List ToolCall
  pub prompt_tokens : ℕ
  pub completion_tokens : ℕ
  pub truncated : Bool

-- The object `tool_calls`: the properties that hold numbers, and the names of those that hold texts.
pub record ToolCounts : Type 0 where
  pub counts : List (String × ℕ)
  pub texts : List String

-- The members of an object literal that it has not been given.
abbrev pub inherited : List String
inherited =
    "constructor" ∷ "hasOwnProperty" ∷ "isPrototypeOf" ∷ "propertyIsEnumerable" ∷ "toLocaleString"
    ∷ "toString" ∷ "valueOf" ∷ "__defineGetter__" ∷ "__defineSetter__" ∷ "__lookupGetter__"
    ∷ "__lookupSetter__" ∷ "__proto__" ∷ []

pub record AgentReport : Type 0 where
  pub summary : Units
  pub finished : Bool
  pub closed : Bool
  pub steps : ℕ
  pub tool_calls : ToolCounts
  pub tool_errors : ℕ
  pub prompt_tokens : ℕ
  pub completion_tokens : ℕ

abbrev pub apply_tool : String
apply_tool = "zeromem_curate_apply"

abbrev pub also_served : List String
also_served = "zeromem_read_session" ∷ "zeromem_recall" ∷ []

abbrev pub dropped : Units
dropped =
    units
      "[dropped to keep the conversation inside the context window; call the tool again if you need it]"

abbrev pub not_closed : Units
not_closed =
    units
      "The run is not closed. Call zeromem_curate_apply with the same run_id and actions: [{\"op\": \"run_end\", \"summary\": \"...\"}], then reply with the summary."

abbrev pub calls_size : List ToolCall → ℕ
calls_size [] = 0
calls_size (c ∷ cs) = length c.arguments + calls_size cs

abbrev pub size : ChatMessage → ℕ
size (system t) = length t
size (user t) = length t
size (assistant none cs) = calls_size cs
size (assistant (some t) cs) = length t + calls_size cs
size (tool id t) = length t

abbrev pub total_size : List ChatMessage → ℕ
total_size [] = 0
total_size (m ∷ ms) = size m + total_size ms

-- Whether the loop of `trim`, with the total as it stands, drops the text of a tool's result.
unfoldable pub drops : ℕ → ℕ → Units → Bool
unfolding units_equal
drops total max_chars t = not (leb total max_chars) && not (units_equal t dropped)

-- The loop of `trim`.
unfoldable pub trim_from : ℕ → ℕ → List ChatMessage → List ChatMessage
unfolding drops
trim_from total max_chars [] = []
trim_from total max_chars (tool id t ∷ ms) =
    if drops total max_chars t
    then tool id dropped ∷ trim_from (total + length dropped - length t) max_chars ms
    else tool id t ∷ trim_from total max_chars ms
trim_from total max_chars (m ∷ ms) = m ∷ trim_from total max_chars ms

unfoldable pub trim : ℕ → List ChatMessage → List ChatMessage
unfolding trim_from
trim max_chars ms = trim_from (total_size ms) max_chars ms

unfoldable pub clip : Units → ℕ → Units
unfolding decimal
clip text limit =
    if leb (length text) limit
    then text
    else take limit text
      ++ units "\n… [clipped: "
      ++ decimal limit
      ++ units " of "
      ++ decimal (length text)
      ++ units " characters — ask for less at a time: a smaller limit, fewer turn_ids]"

-- The arguments of a call as an object: whether `dry_run` is true, and the `op` of each element of
-- `actions` if that is an array.
pub record Args : Type 0 where
  pub dry_run : Bool
  pub actions : Option (List (Option String))

abbrev pub is_op : String → Option String → Bool
is_op op none = false
is_op op (some o) = str_eq o op

unfoldable pub closes_run : Args → Bool
closes_run a = elim a.actions [
  | none ↦ false
  | some ops ↦ not a.dry_run && any (is_op "run_end") ops
]

pub record Outcome : Type 0 where
  pub args : Option Args
  pub text : Units
  pub is_error : Bool

-- A tool's reply, or the exception that the client throws.
pub data Reply : Type 0 where
  result : Bool → Units → Reply
  thrown : Units → Reply

-- A name in the tools that the server listed for this run.
abbrev pub listed : List String → String → Bool
listed tools name = any (λ t. str_eq t name) tools

abbrev pub is_curate_tool : String → Bool
is_curate_tool name = starts_with name "zeromem_curate_"

abbrev pub served : List String → List String
served listing = keep_if (λ name. is_curate_tool name || listed also_served name) listing

unfoldable pub bump : String → List (String × ℕ) → List (String × ℕ)
bump name [] = (name, 1) ∷ []
bump name ((k, n) ∷ counts) =
    if str_eq k name then (k, n + 1) ∷ counts else (k, n) ∷ bump name counts

-- `report.tool_calls[name] = (report.tool_calls[name] ?? 0) + 1`. Adding 1 to an inherited member makes a text of
-- it, and `__proto__` takes no text.
unfoldable pub count_call : String → ToolCounts → ToolCounts
unfolding bump
count_call name c =
    if str_eq name "__proto__"
    then c
    else if listed inherited name
    then (if listed c.texts name then c else record c { texts = c.texts ++ name ∷ [] })
    else record c { counts = bump name c.counts }

pub record State : Type 0 where
  pub report : AgentReport
  pub messages : List ChatMessage
  pub nudged : Bool

abbrev pub empty_report : AgentReport
empty_report = record {
  summary = [];
  finished = false;
  closed = false;
  steps = 0;
  tool_calls = record { counts = []; texts = [] };
  tool_errors = 0;
  prompt_tokens = 0;
  completion_tokens = 0;
}

-- What `JSON.parse` and the test for an object make of a call's arguments, or the message of the error.
pub data Parsed : Type 0 where
  object : Args → Parsed
  malformed : Units → Parsed

-- `call_tool` answers a call in the conversation before it, or throws.
module _ (parse : Units → Parsed) (call_tool : List ChatMessage → String → Args → Reply)
    (tools : List String) where
  -- The reply to the call, or the exception, as an answer that the model can read.
  unfoldable pub answer : Args → Reply → Outcome
  answer args (result is_error text) = record { args = some args; text = text; is_error = is_error }
  answer args (thrown message) = record { args = some args; text = message; is_error = true }

  unfoldable pub relay_parsed : List ChatMessage → String → Parsed → Outcome
  unfolding answer
  relay_parsed sofar name (malformed message) = record {
    args = none;
    text = units "The arguments were not a JSON object: " ++ message;
    is_error = true;
  }
  relay_parsed sofar name (object args) = answer args (call_tool sofar name args)

  unfoldable pub relay : List ChatMessage → ToolCall → Outcome
  unfolding relay_parsed
  relay sofar call =
      if listed tools call.name
      then relay_parsed sofar call.name (parse call.arguments)
      else record {
        args = none;
        text = units "There is no tool named " ++ units call.name ++ units ".";
        is_error = true;
      }

  abbrev pub closes : Option Args → Bool
  closes none = false
  closes (some a) = closes_run a

  -- One round of `for (const call of calls)`.
  unfoldable pub handle_call : ℕ → ToolCall → State → State
  unfolding relay count_call closes_run clip
  handle_call max_tool_chars call s =
      let outcome = relay s.messages call in
      record s {
        report = record s.report {
          tool_calls = count_call call.name s.report.tool_calls;
          tool_errors = if outcome.is_error then s.report.tool_errors + 1 else s.report.tool_errors;
          closed =
              s.report.closed
              || (not outcome.is_error && str_eq call.name apply_tool && closes outcome.args);
        };
        messages = s.messages ++ tool call.id (clip outcome.text max_tool_chars) ∷ [];
      }

  unfoldable pub handle_calls : ℕ → List ToolCall → State → State
  unfolding handle_call
  handle_calls max_tool_chars [] s = s
  handle_calls max_tool_chars (c ∷ cs) s =
      handle_calls max_tool_chars cs (handle_call max_tool_chars c s)

  -- The conversation after the model's reply, with the request counted.
  unfoldable pub add_completion : Completion → State → State
  add_completion c s = record s {
    report = record s.report {
      steps = s.report.steps + 1;
      prompt_tokens = s.report.prompt_tokens + c.prompt_tokens;
      completion_tokens = s.report.completion_tokens + c.completion_tokens;
    };
    messages = s.messages ++ assistant c.content c.tool_calls ∷ [];
  }

  abbrev pub can_apply : Bool
  can_apply = listed tools apply_tool

  -- A reply without calls: asked once to close the run, else the run is over.
  unfoldable pub conclude : Completion → State → State × Bool
  conclude c s =
      let said = record s { report = record s.report { summary = or_else c.content [] } } in
      if can_apply && not s.report.closed && not s.nudged
      then (record said { nudged = true; messages = s.messages ++ user not_closed ∷ [] }, false)
      else (record said { report = record said.report { finished = true } }, true)

  -- What follows a reply with these calls, and whether the loop ends with it.
  unfoldable pub respond_to : List ToolCall → ℕ → Completion → State → State × Bool
  unfolding conclude handle_calls
  respond_to [] max_tool_chars c s = conclude c s
  respond_to (call ∷ calls) max_tool_chars c s =
      (handle_calls max_tool_chars (call ∷ calls) s, false)

  unfoldable pub respond : ℕ → Completion → State → State × Bool
  unfolding respond_to add_completion
  respond max_tool_chars c s = respond_to c.tool_calls max_tool_chars c (add_completion c s)

  abbrev pub go_on : (State → Option State) → State × Bool → Option State
  go_on rest (s, true) = some s
  go_on rest (s, false) = rest s

  abbrev pub if_answered : (Completion → Option State) → Option Completion → Option State
  if_answered next none = none
  if_answered next (some c) = next c

  -- The loop, `left` being the model requests that `maxSteps` still allows. `none` is an exception of
  -- the model request, which ends the run.
  unfoldable pub run_loop :
      (List ChatMessage → Option Completion) → ℕ → ℕ → ℕ → State → Option State
  unfolding respond trim
  run_loop complete max_tool_chars max_context_chars zero s = some s
  run_loop complete max_tool_chars max_context_chars (suc left) s =
      let trimmed = record s { messages = trim max_context_chars s.messages } in
      let rest = run_loop complete max_tool_chars max_context_chars left in
      if_answered (λ c. go_on rest (respond max_tool_chars c trimmed)) (complete trimmed.messages)

pub record AgentOptions : Type 0 where
  pub max_steps : Option ℕ
  pub max_tool_chars : Option ℕ
  pub max_context_chars : Option ℕ

-- A report, or the exception that a run without curator tools or a failed model request ends with.
pub data RunResult : Type 0 where
  reported : AgentReport → RunResult
  not_curator : RunResult
  request_failed : RunResult

unfoldable pub opening : Units → Units → State
opening now task = record {
  report = empty_report;
  messages =
      system (
        units
          "You are the curator of a zeromem memory store. The user message is your procedure: follow it with the tools. The time is "
        ++ now
        ++ units
            " (UTC). Act by calling tools, not by describing calls. Turn ids are numbers taken from tool results; never invent one. When the procedure is complete, stop calling tools and reply with your summary.")
      ∷ user task
      ∷ [];
  nudged = false;
}

abbrev pub run_result : Option State → RunResult
run_result none = request_failed
run_result (some s) = reported s.report

-- `listing` is what the server lists, `now` the time as text, `task` the text of the prompt it serves. Neither
-- the listing nor the prompt fails here.
unfoldable pub run_curator :
    (Units → Parsed)
    → (List ChatMessage → String → Args → Reply)
    → (List ChatMessage → Option Completion)
    → AgentOptions
    → List String
    → Units
    → Units
    → RunResult
unfolding run_loop opening
run_curator parse call_tool complete options listing now task =
    if any is_curate_tool (served listing)
    then run_result (
        run_loop parse call_tool (served listing) complete (or_else options.max_tool_chars 12000)
          (or_else options.max_context_chars 120000) (or_else options.max_steps 40)
          (opening now task))
    else not_curator
