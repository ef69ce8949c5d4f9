-- ===== src/Llm/Thinking.antt =====
-- The scratch work that is taken out of a model's reply (THINKING of server/src/curator-agent/llm.ts).
use mcp_zeromem.Common.{
  ℕ, suc, ◌+◌, ◌-◌, ◌≤◌, Bool, true, false, not, ◌&&◌, ◌≡◌, refl, sym, ap, ◌∙◌, ◌⊎◌, Option, none,
  some, or_else, List, [], ◌∷◌, ◌++◌, length, drop, All, all, ◌==◌, arith, inl, inr,
}
use mcp_zeromem.Common.Units.{Units}
use mcp_zeromem.Llm.{
  opening_tag, closing_tag, close_here, strip_next, begins_with, through_close, think_length,
  strip_thinking,
}

-- No tag begins in the text.
abbrev pub IsUntagged : Units → Type 0
IsUntagged s = all (λ c. not (c == b'<')) s ≡ true

-- The text ends with its first closing tag.
abbrev pub IsClosed : Units → Type 0
IsClosed s = through_close s ≡ some (length s)

begins_with-le : (p s : Units) → begins_with p s ≡ true → length p ≤ length s
unfolding begins_with
begins_with-le [] s h = omega arith
begins_with-le (x ∷ xs) [] h = absurd (cc)
begins_with-le (x ∷ xs) (c ∷ s) h = ground (arith, begins_with-le xs s)

begins_with-append :
    (p s r : Units) → length p ≤ length s → begins_with p (s ++ r) ≡ begins_with p s
unfolding begins_with
begins_with-append [] s r h = refl
begins_with-append (x ∷ xs) [] r h = absurd (omega arith)
begins_with-append (x ∷ xs) (c ∷ s) r h =
    ap (λ b. (x == c) && b) (begins_with-append xs s r (omega arith))

through_close_step :
    (c : ℕ) (s : Units)
    → through_close (c ∷ s) ≡ close_here (begins_with closing_tag (c ∷ s)) (through_close s)
unfolding through_close
through_close_step c s = refl

close_here-some :
    (b : Bool) (o : Option ℕ) (n : ℕ)
    → close_here b o ≡ some n
    → ((b ≡ true) × (n ≡ 8)) ⊎ ((b ≡ false) × ((m : ℕ) × (o ≡ some m) × (n ≡ suc m)))
close_here-some true o n h = inl (refl, ap (λ x. or_else x 0) (sym h))
close_here-some false none n h = absurd (cc)
close_here-some false (some m) n h = inr (refl, (m, refl, ap (λ x. or_else x 0) (sym h)))

through_close-append :
    (s r : Units) (n : ℕ)
    → through_close s ≡ some n
    → (8 ≤ length s) × (through_close (s ++ r) ≡ some n)
unfolding through_close
through_close-append [] r n h = absurd (cc)
through_close-append (c ∷ s) r n h =
    elim (close_here-some (begins_with closing_tag (c ∷ s)) (through_close s) n
      (sym (through_close_step c s) ∙ h)) [
        | inl (b, e) ↦
            let long : 8 ≤ length (c ∷ s) = begins_with-le closing_tag (c ∷ s) b in
            (
              long,
              through_close_step c (s ++ r)
                  ∙ rw (begins_with-append closing_tag (c ∷ s) r long, b, e) refl,
            )
        | inr (b, (m, o, e)) ↦
            let (long, rest) = through_close-append s r m o in
            let longer : 8 ≤ length (c ∷ s) = omega (arith, long) in
            (
              longer,
              through_close_step c (s ++ r)
                  ∙ rw (begins_with-append closing_tag (c ∷ s) r longer, b, rest, e) refl,
            )
      ]

drop-length : (xs ys : Units) → drop (length xs) (xs ++ ys) ≡ ys
drop-length [] ys = refl
drop-length (x ∷ xs) ys = drop-length xs ys

think_length-block :
    (b r : Units) → IsClosed b → think_length (opening_tag ++ b ++ r) ≡ some (7 + length b)
unfolding think_length begins_with
think_length-block b r h = rw ((through_close-append b r (length b) h).1) refl

strip_skipped : (s r : Units) → strip_thinking (length s) (s ++ r) ≡ strip_thinking 0 r
unfolding strip_thinking
strip_skipped [] r = refl
strip_skipped (c ∷ s) r = strip_skipped s r

strip_matched :
    (c : ℕ) (s : Units) (n : ℕ)
    → think_length (c ∷ s) ≡ some n
    → strip_thinking 0 (c ∷ s) ≡ strip_thinking (n - 1) s
unfolding strip_thinking
strip_matched c s n h = ap (λ o. strip_next o (c ∷ strip_thinking 0 s) (λ n. strip_thinking n s)) h

strip_unmatched :
    (c : ℕ) (s : Units)
    → think_length (c ∷ s) ≡ none
    → strip_thinking 0 (c ∷ s) ≡ c ∷ strip_thinking 0 s
unfolding strip_thinking
strip_unmatched c s h = ap (λ o. strip_next o (c ∷ strip_thinking 0 s) (λ n. strip_thinking n s)) h

strip_block :
    (b r : Units) → IsClosed b → strip_thinking 0 (opening_tag ++ b ++ r) ≡ strip_thinking 0 r
strip_block b r h =
    strip_matched b'<' (drop 1 opening_tag ++ b ++ r) (7 + length b) (think_length-block b r h)
    ∙ ap (λ n. strip_thinking n (drop 1 opening_tag ++ b ++ r)) passed
    ∙ strip_skipped (drop 1 opening_tag ++ b) r
  where
    passed : 7 + length b - 1 ≡ length (drop 1 opening_tag ++ b)
    passed = omega arith

no_opening : (c : ℕ) (s : Units) → (c == b'<') ≡ false → begins_with opening_tag (c ∷ s) ≡ false
unfolding begins_with
no_opening c s h = ground arith

no_match : (c : ℕ) (s : Units) → (c == b'<') ≡ false → think_length (c ∷ s) ≡ none
unfolding think_length
no_match c s h = rw (no_opening c s h) refl

strip_untagged : (s r : Units) → IsUntagged s → strip_thinking 0 (s ++ r) ≡ s ++ strip_thinking 0 r
strip_untagged [] r h = refl
strip_untagged (c ∷ s) r h =
    let plain : (c == b'<') ≡ false = ground arith in
    let rest : IsUntagged s = ground arith in
    strip_unmatched c (s ++ r) (no_match c (s ++ r) plain)
    ∙ ap (λ x. c ∷ x) (strip_untagged s r rest)

-- What a text says outside of its scratch work, given as pieces: a text without `<`, then the rest of a block from after its
-- opening tag up to its first closing tag; and a text without `<` at the end.
abbrev pub Piece : Type 0
Piece = Units × Units

abbrev pub IsPiece : Piece → Type 0
IsPiece (said, block) = IsUntagged said × IsClosed block

abbrev pub interleaved : List Piece → Units → Units
interleaved [] end = end
interleaved ((said, block) ∷ ps) end = said ++ (opening_tag ++ (block ++ interleaved ps end))

abbrev pub said_only : List Piece → Units → Units
said_only [] end = end
said_only ((said, block) ∷ ps) end = said ++ said_only ps end

strip_last : (end : Units) → IsUntagged end → strip_thinking 0 end ≡ end
unfolding strip_thinking
strip_last [] h = refl
strip_last (c ∷ s) h =
    let plain : (c == b'<') ≡ false = ground arith in
    let rest : IsUntagged s = ground arith in
    strip_unmatched c s (no_match c s plain) ∙ ap (λ x. c ∷ x) (strip_last s rest)

-- Of a text in which `<think>` blocks, each up to its first closing tag, stand among and before texts without a `<`,
-- those texts are kept, in order and unchanged, and all of every block is taken out, whatever it holds.
pub strip_thinking_blocks :
    (ps : List Piece) (end : Units)
    → All IsPiece ps
    → IsUntagged end
    → strip_thinking 0 (interleaved ps end) ≡ said_only ps end
strip_thinking_blocks [] end h u = strip_last end u
strip_thinking_blocks ((said, block) ∷ ps) end ((p, q), h) u =
    strip_untagged said (opening_tag ++ (block ++ interleaved ps end)) p
    ∙ ap (λ x. said ++ x)
        (strip_block block (interleaved ps end) q ∙ strip_thinking_blocks ps end h u)
