-- ===== src/Memory.antt =====
-- shared/src/memory.ts: the shapes that the engine and its clients exchange. Ids and times are
-- natural numbers. Of a schema's fields, those that the modelled code reads or writes are kept.
use mcp_zeromem.Common.{
  ℕ, String, Bool, true, ◌&&◌, Option, none, some, List, leb, ltb, if◌then◌else◌,
}
use mcp_zeromem.Common.Text.{trim, utf16_length}

pub record StoredTurn : Type 0 where
  pub id : ℕ
  pub session_id : String
  pub speaker : String
  pub text : String
  pub ts : ℕ
  pub scope : Option String

pub record SessionWindow : Type 0 where
  pub session_id : String
  pub turns : List StoredTurn
  pub around_turn : Option ℕ
  pub total : ℕ
  pub offset : ℕ
  pub truncated : Bool

pub record TurnInput : Type 0 where
  pub session_id : String
  pub speaker : String
  pub text : String
  pub ts : Option ℕ
  pub uuid : Option String
  pub scope : Option String

pub record IngestReport : Type 0 where
  pub indexed : ℕ
  pub duplicates : ℕ
  pub rejected : ℕ

-- `z.string().min(1)`
abbrev pub non_empty : String → Bool
non_empty s = ltb 0 (utf16_length s)

-- What an optional field demands is demanded only where the field is given.
abbrev pub optional {ℓ} : {A : Type ℓ} → (A → Bool) → Option A → Bool
optional p none = true
optional p (some a) = p a

-- `scopeSchema`: trimmed, then at most 200 code units.
unfoldable pub parse_scope : Option String → Option (Option String)
unfolding trim
parse_scope none = some none
parse_scope (some s) = if leb (utf16_length (trim s)) 200 then some (some (trim s)) else none

-- `turnInputSchema`, on a value whose fields have the types of the schema.
unfoldable pub parse_turn : TurnInput → Option TurnInput
unfolding parse_scope
parse_turn t = elim (parse_scope t.scope) [
  | none ↦ none
  | some scope ↦
      if non_empty t.session_id
        && non_empty t.speaker
        && non_empty t.text
        && optional non_empty t.uuid
      then some (record t { scope = scope })
      else none
]
