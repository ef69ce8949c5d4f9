-- ===== src/Recall/Format.antt =====
-- `zeromem_recall` (server/src/gateway/tools/recall.ts): its evidence as text, and its run. `day` is the
-- UTC date of a time, the first ten characters of `toISOString()`; `fixed` is `toFixed(2)`.
use Prim.Native.String.{◌++◌}
use mcp_zeromem.Common.{
  ℕ, String, Bool, true, false, not, Option, none, some, List, [], ◌∷◌, map, ◌++◌ as list_append,
  keep_if, or_else, if◌then◌else◌,
}
use mcp_zeromem.Common.Text.{truthy, join}
use mcp_zeromem.Memory.{StoredTurn}
use mcp_zeromem.Ingest.{scope_of}
use mcp_zeromem.Config.{Config}
use mcp_zeromem.Recall.Text.{normalise, clip, show}

pub data Role : Type 0 where
  primary supporting : Role

-- The fields of a hit that its block shows.
pub record Evidence : Type 0 where
  pub turn : StoredTurn
  pub role : Role
  pub superseded_by : Option ℕ
  pub valid_until : Option ℕ
  pub before : Option (List StoredTurn)
  pub after : Option (List StoredTurn)

-- `best` is a score that is only printed.
pub record Abstained (N : Type 0) : Type 0 where
  pub missing : Option (List String)
  pub best : N

pub record QueryResult (N : Type 0) : Type 0 where
  pub abstained : Option (Abstained N)
  pub evidence : List Evidence

abbrev pub is_primary : Role → Bool
is_primary primary = true
is_primary supporting = false

abbrev pub role_name : Role → String
role_name primary = "primary"
role_name supporting = "supporting"

unfoldable pub body : ℕ → StoredTurn → String
unfolding normalise clip
body limit turn = clip (normalise turn.text) limit turn.id

-- `side` is the name in brackets.
unfoldable pub neighbour_line : ℕ → String → StoredTurn → String
unfolding body show
neighbour_line limit side turn =
    "[" ++ side ++ "] " ++ turn.speaker ++ " (turn " ++ show turn.id ++ "): " ++ body limit turn

-- Primary hits first, each group in rank order.
unfoldable pub ordered : List Evidence → List Evidence
ordered evidence =
    list_append (keep_if (λ (item : Evidence). is_primary item.role) evidence)
      (keep_if (λ (item : Evidence). not (is_primary item.role)) evidence)

module _ (day : ℕ → String) where
  abbrev when_replaced : Option ℕ → String
  when_replaced none = ""
  when_replaced (some until) = " " ++ day until

  abbrev replaced_by : Option ℕ → Option ℕ → String
  unfolding show
  replaced_by none until = ""
  replaced_by (some id) until = ", superseded" ++ when_replaced until ++ " by turn " ++ show id

  unfoldable pub replaced : Evidence → String
  unfolding replaced_by
  replaced item = replaced_by item.superseded_by item.valid_until

  abbrev scope_part : Option String → String
  scope_part none = ""
  scope_part (some scope) = ", scope " ++ scope

  unfoldable pub header : Evidence → String
  unfolding replaced show
  header item =
      "["
      ++ role_name item.role
      ++ "] "
      ++ day item.turn.ts
      ++ " "
      ++ item.turn.speaker
      ++ " (session "
      ++ item.turn.session_id
      ++ ", turn "
      ++ show item.turn.id
      ++ scope_part (truthy item.turn.scope)
      ++ replaced item
      ++ ")"

  unfoldable pub block_lines : ℕ → Evidence → List String
  unfolding header body neighbour_line
  block_lines limit item =
      list_append (map (neighbour_line limit "before") (or_else item.before [])) (
        (header item ++ ": " ++ body limit item.turn)
        ∷ map (neighbour_line limit "after") (or_else item.after []))

  unfoldable pub format_block : ℕ → Evidence → String
  unfolding block_lines join
  format_block limit item = join "\n" (block_lines limit item)

  unfoldable pub format_evidence_text : ℕ → List Evidence → String
  unfolding ordered format_block join
  format_evidence_text limit evidence = join "\n\n" (map (format_block limit) (ordered evidence))

abbrev quoted : String → String
quoted name = "\"" ++ name ++ "\""

module _ {N : Type 0} (fixed : N → String) where
  abbrev why : Abstained N → List String → String
  why a [] = "nothing in memory matches this closely (best score " ++ fixed a.best ++ ")"
  why a (name ∷ names) = "no turn in memory mentions " ++ join ", " (map quoted (name ∷ names))

  unfoldable pub format_abstained : Abstained N → String
  unfolding join
  format_abstained a =
      "[abstained] Memory does not hold the answer: "
      ++ why a (or_else a.missing [])
      ++ ". The closest turns follow; they are probably not the answer."

pub data Format : Type 0 where
  json text : Format

-- The arguments of the tool; those that only the engine reads are `O`.
pub record RecallArgs (O : Type 0) : Type 0 where
  pub query : String
  pub format : Option Format
  pub max_chars : Option ℕ
  pub exclude_session : Option String
  pub scope : Option String
  pub options : O

pub record RecallOptions (O : Type 0) : Type 0 where
  pub exclude_session : Option String
  pub scope : Option String
  pub options : O

pub data RecallReply (N : Type 0) : Type 0 where
  as_json : QueryResult N → RecallReply N
  as_text : String → RecallReply N

-- What is asked of the engine.
unfoldable pub recall_options : {O : Type 0} → Config → RecallArgs O → RecallOptions O
unfolding scope_of
recall_options config args = record {
  exclude_session = elim args.exclude_session [ none ↦ config.session_id | some s ↦ some s ];
  scope = scope_of args.scope config.scope;
  options = args.options;
}

abbrev wants_text : Option Format → Bool
wants_text (some text) = true
wants_text _ = false

abbrev shown : {N : Type 0} → (N → String) → Option (Abstained N) → String → String
unfolding format_abstained
shown fixed none blocks = blocks
shown fixed (some a) blocks = format_abstained fixed a ++ "\n\n" ++ blocks

module _ {N O : Type 0} (day : ℕ → String) (fixed : N → String) where
  unfoldable pub reply : Config → RecallArgs O → QueryResult N → RecallReply N
  unfolding format_evidence_text shown
  reply config args result =
      if wants_text args.format
      then as_text (
          shown fixed result.abstained (
            format_evidence_text day (or_else args.max_chars config.recall_text_limit)
              result.evidence))
      else as_json result

  -- The run of `zeromem_recall`, for a `query` of the engine that does not fail.
  unfoldable pub recall :
      (String → RecallOptions O → QueryResult N) → Config → RecallArgs O → RecallReply N
  unfolding recall_options reply
  recall engine_query config args =
      reply config args (engine_query args.query (recall_options config args))
