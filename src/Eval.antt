-- ===== src/Eval.antt =====
-- server/src/answer-eval/eval.ts: questions answered by a model from the memory, and graded by another.
-- Texts are lists of UTF-16 code units; a quotient is a pair of its numerator and denominator.
pub mod Answer
pub mod Sample
pub mod Summary
pub mod Verdicts
mod Examples
use Prim.Native.String
use mcp_zeromem.Common.{
  ℕ, zero, suc, ◌+◌, ◌-◌, ◌*◌, ◌/◌, String, Bool, true, false, not, ◌&&◌, ◌||◌, Option, none, some,
  List, [], ◌∷◌, ◌++◌, map, leb, ltb, ◌==◌, str_eq, if◌then◌else◌, or_else, any, length, keep_if,
  get_elem?,
}
use mcp_zeromem.Common.Sort.{count_if}
use mcp_zeromem.Common.Units.{Units, units, units_equal}
use mcp_zeromem.Agent.{
  ChatMessage, system, user, assistant, tool, ToolCall, Completion, Parsed, Args, Reply, relay,
  clip, listed,
}

pub data Ask : Type 0 where
  current history as_of abstain : Ask

pub data Verdict : Type 0 where
  correct wrong abstained unjudged error : Verdict

pub record Relevant : Type 0 where
  pub uuid : String
  pub grade : ℕ

pub record Question : Type 0 where
  pub id : String
  pub kind : String
  pub query : Units
  pub relevant : List Relevant
  pub ask : Ask

pub record Answered : Type 0 where
  pub answer : Units
  pub cut_off : Bool
  pub steps : ℕ
  pub tool_calls : ℕ
  pub prompt_tokens : ℕ
  pub completion_tokens : ℕ

pub record QuestionResult : Type 0 where
  pub id : String
  pub ask : Ask
  pub kind : String
  pub question : Units
  pub answered : Answered
  pub verdict : Verdict
  pub right : Bool

abbrev pub Ratio : Type 0
Ratio = ℕ × ℕ

pub record AskSummary : Type 0 where
  pub questions : ℕ
  pub right : ℕ
  pub wrong : ℕ
  pub abstained : ℕ
  pub unjudged : ℕ
  pub errors : ℕ
  pub cut_off : ℕ
  pub accuracy : Ratio
  pub tool_calls_mean : Ratio
  pub prompt_tokens_mean : Ratio

abbrev pub memory_tool_names : List String
memory_tool_names = "zeromem_recall" ∷ "zeromem_read_session" ∷ []

-- The memory tools that the server lists, or `none` for the exception.
unfoldable pub memory_tools : List String → Option (List String)
memory_tools listing =
    let tools = keep_if (listed memory_tool_names) listing in
    if listed tools "zeromem_recall" then some tools else none

abbrev pub no_answer : Answered
no_answer = record {
  answer = [];
  cut_off = false;
  steps = 0;
  tool_calls = 0;
  prompt_tokens = 0;
  completion_tokens = 0;
}

abbrev pub is_empty_answer : Units → Bool
is_empty_answer [] = true
is_empty_answer (u ∷ us) = false

abbrev pub add_request : Completion → Answered → Answered
add_request c out = record out {
  steps = out.steps + 1;
  prompt_tokens = out.prompt_tokens + c.prompt_tokens;
  completion_tokens = out.completion_tokens + c.completion_tokens;
}

-- `isRight`
abbrev pub is_correct : Verdict → Bool
is_correct correct = true
is_correct v = false

abbrev pub is_abstained : Verdict → Bool
is_abstained abstained = true
is_abstained v = false

unfoldable pub is_right : Question → Verdict → Bool
is_right q v = elim q.relevant [ [] ↦ is_abstained v | r ∷ rs ↦ is_correct v ]

-- `textOf.get(uuid) ?? []`, flattened
abbrev pub texts_of : (String → Option Units) → List Relevant → List Units
texts_of text_of [] = []
texts_of text_of (r ∷ rs) = elim (text_of r.uuid) [
  | none ↦ texts_of text_of rs
  | some t ↦ t ∷ texts_of text_of rs
]

abbrev pub top_or_all : List Relevant → List Relevant → List Relevant
top_or_all [] all_ = all_
top_or_all (r ∷ rs) all_ = r ∷ rs

unfoldable pub references : Question → (String → Option Units) → List Units
references q text_of =
    texts_of text_of (top_or_all (keep_if (λ (r : Relevant). leb 2 r.grade) q.relevant) q.relevant)

-- `Array.from({ length: limit }, (_, i) => items[Math.floor((i * items.length) / limit)])`, from `i` on.
unfoldable pub picks : ℕ → ℕ → ℕ → ℕ → List ℕ
picks zero i n limit = []
picks (suc left) i n limit = i * n / limit ∷ picks left (i + 1) n limit

-- An index outside the list would give `undefined`, here `none`.
unfoldable pub sample {ℓ} : {A : Type ℓ} → List A → Option ℕ → List (Option A)
unfolding picks
sample items none = map some items
sample items (some limit) =
    if leb (length items) limit
    then map some items
    else map (get_elem? items) (picks limit 0 (length items) limit)

abbrev pub same_ask : Ask → Ask → Bool
same_ask current current = true
same_ask history history = true
same_ask as_of as_of = true
same_ask abstain abstain = true
same_ask a b = false

abbrev pub same_verdict : Verdict → Verdict → Bool
same_verdict correct correct = true
same_verdict wrong wrong = true
same_verdict abstained abstained = true
same_verdict unjudged unjudged = true
same_verdict error error = true
same_verdict a b = false

abbrev pub total_of : (QuestionResult → ℕ) → List QuestionResult → ℕ
total_of f [] = 0
total_of f (r ∷ rs) = f r + total_of f rs

-- `mean`, of a list that is not empty.
abbrev pub mean : (QuestionResult → ℕ) → List QuestionResult → Ratio
mean f rs = (total_of f rs, length rs)

abbrev pub count : Verdict → List QuestionResult → ℕ
count v rs = count_if (λ (r : QuestionResult). same_verdict v r.verdict) rs

unfoldable pub summary_of : List QuestionResult → AskSummary
summary_of group =
    let right = count_if (λ (r : QuestionResult). r.right) group in
    record {
      questions = length group;
      right = right;
      wrong = count wrong group;
      abstained = count abstained group;
      unjudged = count unjudged group;
      errors = count error group;
      cut_off = count_if (λ (r : QuestionResult). r.answered.cut_off) group;
      accuracy =
          if length group == count error group
          then (0, 1)
          else (right, length group - count error group);
      tool_calls_mean = mean (λ r. r.answered.tool_calls) group;
      prompt_tokens_mean = mean (λ r. r.answered.prompt_tokens) group;
    }

-- A group without questions has no entry.
abbrev pub entry_of : List QuestionResult → Option AskSummary
entry_of [] = none
entry_of (r ∷ rs) = some (summary_of (r ∷ rs))

abbrev pub of_ask : Ask → List QuestionResult → List QuestionResult
of_ask a rs = keep_if (λ (r : QuestionResult). same_ask r.ask a) rs

-- The entry `all`, or that of one ask.
unfoldable pub summarise : List QuestionResult → Option Ask → Option AskSummary
unfolding summary_of
summarise results none = entry_of results
summarise results (some a) = entry_of (of_ask a results)
