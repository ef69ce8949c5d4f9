-- ===== src/Errors.antt =====
-- server/src/errors.ts: the messages of thrown values. For `errorChainMessage` they are numbers; `message` is
-- `errorMessage` of each and `cause` its cause, none where there is none or where the value is no `Error`.
pub mod Chain
mod Examples
use Prim.Native.String
use mcp_zeromem.Common.{
  ℕ, zero, suc, String, Bool, true, false, ◌||◌, Option, none, some, List, [], ◌∷◌, ◌++◌, any, leb,
  length, if◌then◌else◌,
}
use mcp_zeromem.Common.Text.{truthy, join}
use text.Mathlib.Text.{starts_with}

-- `text.includes(part)`
unfoldable pub includes : String → String → Bool
includes String.[] part = starts_with String.[] part
includes (String.◌∷◌ c text) part = starts_with (String.◌∷◌ c text) part || includes text part

module _ (message : ℕ → String) (cause : ℕ → Option ℕ) where
  unfoldable pub add_part : List String → String → List String
  add_part parts m = if any (λ part. includes part m) parts then parts else parts ++ m ∷ []

  -- The loop; `none` where the fuel runs out.
  unfoldable pub parts_from : ℕ → Option ℕ → List String → Option (List String)
  unfolding add_part
  parts_from zero current parts = none
  parts_from (suc fuel) none parts = some parts
  parts_from (suc fuel) (some err) parts =
      let rest = parts_from fuel (cause err) (add_part parts (message err)) in
      if leb 5 (length parts) then some parts else rest

  abbrev joined : Option (List String) → Option String
  joined none = none
  joined (some parts) = some (join ": " parts)

  -- The message of a thrown value, on fuel.
  unfoldable pub error_chain_message : ℕ → ℕ → Option String
  unfolding parts_from join
  error_chain_message fuel err = joined (parts_from fuel (some err) [])

-- A thrown value by itself: an `HttpError` with its detail, another `Error`, or a value that is none, by its text.
pub data ThrownValue : Type 0 where
  http_error : String → Option String → ThrownValue
  other_error : String → ThrownValue
  no_error : String → ThrownValue

unfoldable pub error_message : ThrownValue → String
error_message (http_error message detail) = message
error_message (other_error message) = message
error_message (no_error text) = text

abbrev with_detail : String → Option String → String
with_detail message none = message
with_detail message (some detail) = String.◌++◌ message (String.◌++◌ ": " detail)

unfoldable pub error_detail_message : ThrownValue → String
unfolding error_message
error_detail_message (http_error message detail) = with_detail message (truthy detail)
error_detail_message err = error_message err
