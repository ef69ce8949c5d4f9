-- ===== src/Mentions.antt =====
-- app/src/lib/mentions.ts: the spans that a turn's text is cut into for display, `splitMentions`. The text
-- is given with its UTF-8 bytes, and decoding is a parameter.
pub mod Cover
mod Examples
use mcp_zeromem.Common.{
  ℕ, ◌+◌, ◌-◌, min, String, Bool, true, false, ◌&&◌, ◌||◌, Option, none, some, List, [], ◌∷◌, ◌++◌,
  map, ltb, leb, ◌==◌, length, take, drop, if◌then◌else◌,
}

-- Offsets in bytes; `end` is `stop` here, and the kind of the entity is left out.
pub record Mention : Type 0 where
  pub key : String
  pub surface : String
  pub start : ℕ
  pub stop : ℕ

pub record Span : Type 0 where
  pub bytes : List ℕ
  pub mention : Option Mention

pub record TextSpan : Type 0 where
  pub text : String
  pub mention : Option Mention

-- `a.start - b.start || b.end - a.end` is at most 0.
unfoldable pub comes_first : Mention → Mention → Bool
comes_first a b = ltb a.start b.start || (a.start == b.start && leb b.stop a.stop)

unfoldable pub insert_mention : Mention → List Mention → List Mention
unfolding comes_first
insert_mention a [] = a ∷ []
insert_mention a (b ∷ bs) = if comes_first a b then a ∷ b ∷ bs else b ∷ insert_mention a bs

-- The stable sort.
unfoldable pub sort_mentions : List Mention → List Mention
unfolding insert_mention
sort_mentions [] = []
sort_mentions (m ∷ ms) = insert_mention m (sort_mentions ms)

-- `bytes.subarray(from, to)`
abbrev pub subarray : List ℕ → ℕ → ℕ → List ℕ
subarray bytes from to = take (to - from) (drop from bytes)

abbrev pub plain : List ℕ → Span
plain bytes = record { bytes = bytes; mention = none }

-- The plain span before a mention, or after the last, if there is one.
abbrev pub gap : List ℕ → ℕ → ℕ → List Span
gap bytes from to = if ltb from to then plain (subarray bytes from to) ∷ [] else []

-- The loop, and what follows it.
unfoldable pub walk : List ℕ → ℕ → List Mention → List Span
walk bytes cursor [] = gap bytes cursor (length bytes)
walk bytes cursor (m ∷ ms) =
    let start = min (length bytes) m.start in
    let stop = min (length bytes) m.stop in
    let skipped = walk bytes cursor ms in
    let rest = walk bytes stop ms in
    if ltb start cursor || leb stop start
    then skipped
    else gap bytes cursor start
      ++ (record { bytes = subarray bytes start stop; mention = some m }) ∷ rest

unfoldable pub split_bytes : List ℕ → List Mention → List Span
unfolding sort_mentions walk
split_bytes bytes [] = plain bytes ∷ []
split_bytes bytes (m ∷ ms) = walk bytes 0 (sort_mentions (m ∷ ms))

abbrev decoded : (List ℕ → String) → Span → TextSpan
decoded decode s = record { text = decode s.bytes; mention = s.mention }

-- The text itself where there are no mentions.
unfoldable pub split_mentions :
    (String → List ℕ) → (List ℕ → String) → String → List Mention → List TextSpan
unfolding split_bytes
split_mentions encode decode text [] = record { text = text; mention = none } ∷ []
split_mentions encode decode text (m ∷ ms) =
    map (decoded decode) (split_bytes (encode text) (m ∷ ms))
