-- ===== src/Llm.antt =====
-- server/src/curator-agent/llm.ts: the request that is made of a model, and what is read of its response.
-- Texts are lists of UTF-16 code units; `post`, JSON with the schema of a response, and JSON.stringify are
-- parameters.
pub mod Thinking
pub mod Ids
mod Examples
use Prim.Native.Char.{code}
use Prim.Native.String
use mcp_zeromem.Common.{
  ℕ, zero, suc, ◌+◌, ◌-◌, String, Bool, true, false, not, ◌&&◌, ◌||◌, Option, none, some, List, [],
  ◌∷◌, ◌++◌, leb, ltb, ◌==◌, or_else, str_eq, take, drop, if◌then◌else◌,
}
use mcp_zeromem.Common.Text.{is_space_code}
use mcp_zeromem.Common.Units.{Units, units, decimal}
use mcp_zeromem.Recall.Text.{show}
use mcp_zeromem.Agent.{ChatMessage, ToolCall, Completion}

abbrev pub is_nil : {A : Type 0} → List A → Bool
is_nil [] = true
is_nil (x ∷ xs) = false

-- `responseSchema`: the arguments of a call are a text, an object or absent.
pub data RawArguments (J : Type 0) : Type 0 where
  written : Units → RawArguments J
  parsed : J → RawArguments J
  missing : RawArguments J

pub record RawCall (J : Type 0) : Type 0 where
  pub id : Option String
  pub name : String
  pub arguments : RawArguments J

-- The first of the choices.
pub record Choice (J : Type 0) : Type 0 where
  pub finish_reason : Option String
  pub content : Option Units
  pub tool_calls : Option (List (RawCall J))

pub record ChatResponse (J : Type 0) : Type 0 where
  pub choice : Choice J
  pub prompt_tokens : Option ℕ
  pub completion_tokens : Option ℕ

abbrev pub opening_tag : Units
opening_tag = units "<think>"

abbrev pub closing_tag : Units
closing_tag = units "</think>"

unfoldable pub begins_with : Units → Units → Bool
begins_with [] s = true
begins_with (x ∷ xs) [] = false
begins_with (x ∷ xs) (c ∷ s) = x == c && begins_with xs s

abbrev pub close_here : Bool → Option ℕ → Option ℕ
close_here true rest = some 8
close_here false none = none
close_here false (some n) = some (suc n)

-- How much of a text there is up to the end of its first closing tag.
unfoldable pub through_close : Units → Option ℕ
unfolding begins_with
through_close [] = none
through_close (c ∷ s) = close_here (begins_with closing_tag (c ∷ s)) (through_close s)

abbrev pub after_open : Bool → Option ℕ → Option ℕ
after_open false rest = none
after_open true none = none
after_open true (some n) = some (7 + n)

-- The length of the match of `<think>[\s\S]*?<\/think>` at the start of a text, if it matches there.
unfoldable pub think_length : Units → Option ℕ
unfolding begins_with through_close
think_length s = after_open (begins_with opening_tag s) (through_close (drop 7 s))

abbrev pub strip_next : Option ℕ → Units → (ℕ → Units) → Units
strip_next none kept skipped = kept
strip_next (some n) kept skipped = skipped (n - 1)

-- `content.replace(THINKING, '')`; `skip` code units of a match are still to be passed over.
unfoldable pub strip_thinking : ℕ → Units → Units
unfolding think_length
strip_thinking skip [] = []
strip_thinking (suc n) (c ∷ s) = strip_thinking n s
strip_thinking zero (c ∷ s) =
    strip_next (think_length (c ∷ s)) (c ∷ strip_thinking 0 s) (λ n. strip_thinking n s)

unfoldable pub trim_start_units : Units → Units
trim_start_units [] = []
trim_start_units (c ∷ s) = if is_space_code c then trim_start_units s else c ∷ s

abbrev pub cons_kept : ℕ → Bool → Units → Units
cons_kept c true [] = []
cons_kept c b s = c ∷ s

unfoldable pub trim_end_units : Units → Units
trim_end_units [] = []
trim_end_units (c ∷ s) = cons_kept c (is_space_code c) (trim_end_units s)

-- `raw?.content?.replace(THINKING, '').trim() ?? ''`
unfoldable pub spoken : Option Units → Units
unfolding strip_thinking trim_start_units trim_end_units
spoken none = []
spoken (some text) = trim_end_units (trim_start_units (strip_thinking 0 text))

module _ {J : Type 0} (stringify : J → Units) where
  abbrev pub arguments_text : RawArguments J → Units
  arguments_text (written text) = text
  arguments_text (parsed j) = stringify j
  arguments_text missing = units "{}"

  -- A call at its index.
  unfoldable pub read_call : ℕ → RawCall J → ToolCall
  unfolding show
  read_call index call = record {
    id = or_else call.id (String.◌++◌ "call_" (show index));
    name = call.name;
    arguments = arguments_text call.arguments;
  }

  unfoldable pub read_calls : ℕ → List (RawCall J) → List ToolCall
  unfolding read_call
  read_calls index [] = []
  read_calls index (c ∷ cs) = read_call index c ∷ read_calls (index + 1) cs

  unfoldable pub read_completion : ChatResponse J → Completion
  unfolding read_calls spoken
  read_completion r =
      let calls = read_calls 0 (or_else r.choice.tool_calls []) in
      let content = spoken r.choice.content in
      record {
        content = if is_nil content && not (is_nil calls) then none else some content;
        tool_calls = calls;
        prompt_tokens = or_else r.prompt_tokens 0;
        completion_tokens = or_else r.completion_tokens 0;
        truncated = elim r.choice.finish_reason [ none ↦ false | some why ↦ str_eq why "length" ];
      }

-- `url.replace(/\/+$/, '')`
unfoldable pub without_slashes : Units → Units
without_slashes [] = []
without_slashes (c ∷ s) = cons_kept c (c == b'/') (without_slashes s)

unfoldable pub endpoint : Units → Units
unfolding without_slashes
endpoint url = without_slashes url ++ units "/chat/completions"

-- What is posted, less its constants; a tool is of any type.
pub record ChatRequest (T : Type 0) : Type 0 where
  pub model : String
  pub messages : List ChatMessage
  pub tools : Option (List T)
  pub max_tokens : Option ℕ

-- How `post` ends.
pub data Posted : Type 0 where
  rejected : Posted
  answered : ℕ → Units → Posted

-- What `JSON.parse` and the schema make of a body.
pub data BodyRead (J : Type 0) : Type 0 where
  not_json : BodyRead J
  unexpected : Units → BodyRead J
  fits : ChatResponse J → BodyRead J

-- A completion, or the message of the error that is thrown.
pub data Completed : Type 0 where
  completed : Completion → Completed
  model_error : Units → Completed

module _ {J T : Type 0} (stringify : J → Units) (read_body : Units → BodyRead J)
    (post : Units → ChatRequest T → Posted) (url : Units) (model : String)
    (max_tokens : Option ℕ) where
  abbrev pub model_at : Units → Units
  model_at what = units "model at " ++ endpoint url ++ what

  unfoldable pub read_answer : Units → BodyRead J → Completed
  unfolding read_completion endpoint
  read_answer body not_json =
      model_error (model_at (units " did not answer in JSON: " ++ take 200 body))
  read_answer body (unexpected message) =
      model_error (model_at (units " answered in an unexpected shape: " ++ message))
  read_answer body (fits r) = completed (read_completion stringify r)

  unfoldable pub read_posted : Posted → Completed
  unfolding read_answer endpoint decimal
  read_posted rejected = model_error (model_at (units " did not answer"))
  read_posted (answered status body) =
      if ltb status 200 || leb 300 status
      then model_error
          (model_at (units " answered " ++ decimal status ++ units ": " ++ take 500 body))
      else read_answer body (read_body body)

  unfoldable pub complete : List ChatMessage → List T → Completed
  unfolding endpoint read_posted
  complete messages tools = read_posted (
      post (endpoint url) (record {
        model = model;
        messages = messages;
        tools = if is_nil tools then none else some tools;
        max_tokens = max_tokens;
      }))
