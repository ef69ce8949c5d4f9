-- ===== src/Auth/Bearer.antt =====
-- The bearer pattern of server/src/auth.ts.
use Prim.Native.Char.{Char}
use Prim.Native.String
use Prim.Native.String.{[], ◌∷◌}
use text.Mathlib.TextLemmas.{nil-append, cons-append}
use mcp_zeromem.Common.{
  String, true, false, not, ◌≡◌, refl, Option, none, some, inl, inr, Bool-cases, arith,
}
use mcp_zeromem.Common.Text.{is_space, is_line_end, is_empty, all_chars, is_word}
use mcp_zeromem.Auth.{after_word, skip_spaces, after_space, capture, bearer_match, bearer_token}

after_word-append : (w s r : String) → is_word w s ≡ true → after_word w (String.◌++◌ s r) ≡ some r
unfolding after_word is_word
after_word-append [] [] r h = rw nil-append
after_word-append [] (c ∷ s) r h = cc
after_word-append (d ∷ w) [] r h = cc
after_word-append (d ∷ w) (c ∷ s) r h = rw cons-append (ground (arith, after_word-append w s r))

-- A token that the pattern can carry: not empty, no white space in front, on one line.
abbrev pub IsPlainToken : String → Type 0
IsPlainToken [] = ⊥
IsPlainToken (c ∷ s) = (is_space c ≡ false) × (all_chars (λ x. not (is_line_end x)) (c ∷ s) ≡ true)

skip_spaces_plain :
    (n : String) (last c : Char) (s : String)
    → all_chars is_space n ≡ true
    → is_space c ≡ false
    → skip_spaces last (String.◌++◌ n (c ∷ s)) ≡ c ∷ s
unfolding skip_spaces all_chars
skip_spaces_plain [] last c s h k = rw nil-append (ground arith)
skip_spaces_plain (d ∷ n) last c s h k = rw cons-append (ground (arith, skip_spaces_plain n d c s))

capture_plain :
    (b : Char) (n t : String)
    → is_space b ≡ true
    → all_chars is_space n ≡ true
    → IsPlainToken t
    → capture (b ∷ String.◌++◌ n t) ≡ some t
unfolding capture after_space all_chars
capture_plain b n [] hb hn p = absurd p
capture_plain b [] (c ∷ t) hb hn (p, q) = rw nil-append (ground arith)
capture_plain b (d ∷ n) (c ∷ t) hb hn (p, q) =
    rw cons-append (ground (arith, skip_spaces_plain n d c t))

-- A header made of the word `Bearer` in any case, one or more white spaces and a token is read back
-- as that token, if the token is not empty, does not begin with white space and has no line end.
pub bearer_token_roundtrip :
    (word : String) (b : Char) (spaces t : String)
    → is_word "bearer" word ≡ true
    → is_space b ≡ true
    → all_chars is_space spaces ≡ true
    → IsPlainToken t
    → bearer_token (some (String.◌++◌ word (b ∷ String.◌++◌ spaces t))) ≡ some t
unfolding bearer_token
bearer_token_roundtrip word b spaces t hw hb hs p =
    rw (after_word-append "bearer" word (b ∷ String.◌++◌ spaces t) hw)
      (capture_plain b spaces t hb hs p)

skip_spaces-ne-empty : (c : Char) (s : String) → is_empty (skip_spaces c s) ≡ false
unfolding skip_spaces
skip_spaces-ne-empty c [] = refl
skip_spaces-ne-empty c (d ∷ s) = ground (arith, skip_spaces-ne-empty d s)

after_space-ne-empty : (c : Char) (s : String) → is_empty (after_space c s) ≡ false
unfolding after_space
after_space-ne-empty c s = elim (Bool-cases (is_space c)) [
  | inl e ↦ rw e (skip_spaces-ne-empty c s)
  | inr e ↦ rw e refl
]

capture-ne-empty : (s t : String) → capture s ≡ some t → is_empty t ≡ false
unfolding capture
capture-ne-empty [] t h = cc
capture-ne-empty (c ∷ []) t h = cc
capture-ne-empty (c ∷ d ∷ s) t h = ground (arith, after_space-ne-empty d s)

bearer_match-ne-empty :
    (o : Option String) (t : String) → bearer_match o ≡ some t → is_empty t ≡ false
unfolding bearer_match
bearer_match-ne-empty none t h = cc
bearer_match-ne-empty (some s) t h = capture-ne-empty s t h

pub bearer_token-ne-empty :
    (header : Option String) (t : String) → bearer_token header ≡ some t → is_empty t ≡ false
unfolding bearer_token
bearer_token-ne-empty none t h = cc
bearer_token-ne-empty (some s) t h = bearer_match-ne-empty (after_word "bearer" s) t h
