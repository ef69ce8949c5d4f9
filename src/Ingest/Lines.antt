-- ===== src/Ingest/Lines.antt =====
-- `parseJsonl` of server/src/engine/jsonl.ts: the lines of the text, and where each of them goes.
use Prim.Native.Char.{code}
use Prim.Native.String
use Prim.Native.String.{String}
use text.Mathlib.TextLemmas
use mcp_zeromem.Common.{
  ℕ, suc, ◌+◌, ◌-◌, ◌≤◌, Bool, true, false, not, some, List, [], ◌∷◌, ◌++◌, map, if◌then◌else◌, ◌≡◌,
  ◌≢◌, refl, sym, ap, ◌∙◌, arith, All, length, get_elem?, Bool-cases, inl, inr,
}
use mcp_zeromem.Common.Sort.{count_if}
use mcp_zeromem.Common.Text.{trim, is_empty}
use mcp_zeromem.Ingest.{
  Rejected, Reading, turn, refused, ParsedJsonl, split_lines, add_reading, parse_lines, parse_jsonl,
}

-- Neither a line feed nor a carriage return.
abbrev pub HasNoEnd : String → Type 0
HasNoEnd String.[] = Unit
HasNoEnd (String.◌∷◌ c s) = (code c ≢ 10) × (code c ≢ 13) × HasNoEnd s

-- Lines, each with its end: `\r\n` where the mark is set, and `\n` otherwise. The last has none.
unfoldable pub join_lines : List (String × Bool) → String → String
join_lines [] last = last
join_lines ((l, crlf) ∷ ls) last = String.◌++◌ l (
    if crlf
    then String.◌∷◌ "\r" (String.◌∷◌ "\n" (join_lines ls last))
    else String.◌∷◌ "\n" (join_lines ls last))

split_lines-append :
    (cur l s : String)
    → HasNoEnd l
    → split_lines false cur (String.◌++◌ l s) ≡ split_lines false (String.◌++◌ cur l) s
unfolding split_lines
split_lines-append cur String.[] s h = rw (TextLemmas.nil-append, TextLemmas.append-nil) refl
split_lines-append cur (String.◌∷◌ c l) s (p, q, h) =
    let grown = String.◌++◌ cur (String.◌∷◌ c String.[]) in
    let moved : String.◌++◌ grown l ≡ String.◌++◌ cur (String.◌∷◌ c l) =
      TextLemmas.append_assoc cur (String.◌∷◌ c String.[]) l
      ∙ ap (λ t. String.◌++◌ cur t)
          (TextLemmas.cons-append c String.[] l
            ∙ ap (λ t. String.◌∷◌ c t) (TextLemmas.nil-append l)) in
    let step : split_lines false cur (String.◌∷◌ c (String.◌++◌ l s))
        ≡ split_lines false grown (String.◌++◌ l s) =
      ground arith in
    ap (split_lines false cur) (TextLemmas.cons-append c l s)
    ∙ step
    ∙ split_lines-append grown l s h
    ∙ ap (λ t. split_lines false t s) moved

split_last : (cur l : String) → HasNoEnd l → split_lines false cur l ≡ String.◌++◌ cur l ∷ []
split_last cur l h =
    ap (split_lines false cur) (sym (TextLemmas.append-nil l))
    ∙ split_lines-append cur l String.[] h
    ∙ closed (String.◌++◌ cur l)
  where
    closed : (t : String) → split_lines false t String.[] ≡ t ∷ []
    closed t = unfold split_lines in refl

split_ended :
    (b : Bool) (t rest : String)
    → split_lines false t
        (if b then String.◌∷◌ "\r" (String.◌∷◌ "\n" rest) else String.◌∷◌ "\n" rest)
      ≡ t ∷ split_lines false "" rest
unfolding split_lines
split_ended true t rest = refl
split_ended false t rest = refl

-- Splitting a text gives back the lines that it was joined from, whether each ends in "\n" or in
-- "\r\n", if no line holds a line feed or a carriage return itself.
pub split_lines-join_lines :
    (ls : List (String × Bool)) (last : String)
    → All (λ l. HasNoEnd l.0) ls
    → HasNoEnd last
    → split_lines false "" (join_lines ls last) ≡ map (λ l. l.0) ls ++ last ∷ []
unfolding join_lines
split_lines-join_lines [] last a h =
    split_last "" last h ∙ ap (λ t. t ∷ []) (TextLemmas.nil-append last)
split_lines-join_lines ((l, b) ∷ ls) last (p, a) h =
    split_lines-append "" l _ p
    ∙ split_ended b (String.◌++◌ "" l) (join_lines ls last)
    ∙ (λ i. TextLemmas.nil-append l i ∷ split_lines-join_lines ls last a h i)

module _ (read : String → Reading) where
  -- The rejected entry names a line of the text, counted from `n`, and the reason found for it.
  abbrev pub Located : ℕ → List String → Rejected → Type 0
  Located n lines r =
      (n ≤ r.line)
      × ((raw : String) × (get_elem? lines (r.line - n) ≡ some raw)
          × (is_empty (trim raw) ≡ false)
          × (read (trim raw) ≡ refused r.reason))

  Located-later :
      (n : ℕ) (raw : String) (lines : List String) (r : Rejected)
      → Located (n + 1) lines r
      → Located n (raw ∷ lines) r
  Located-later n raw lines r (l, (x, e, f, g)) =
      let at_next : r.line - n ≡ suc (r.line - (n + 1)) = omega arith in
      (omega arith, (x, rw at_next e, f, g))

  Located-later-All :
      (n : ℕ) (raw : String) (lines : List String) (rs : List Rejected)
      → All (Located (n + 1) lines) rs
      → All (Located n (raw ∷ lines)) rs
  Located-later-All n raw lines [] a = tt
  Located-later-All n raw lines (r ∷ rs) (p, a) =
      (Located-later n raw lines r p, Located-later-All n raw lines rs a)

  abbrev nonblank : String → Bool
  nonblank raw = not (is_empty (trim raw))

  abbrev Accounts : ℕ → List String → ParsedJsonl → Type 0
  Accounts n lines p =
      (length p.turns + length p.rejected ≡ count_if nonblank lines)
      × All (Located n lines) p.rejected

  Accounts-for :
      (n : ℕ) (raw : String) (lines : List String) (rest : ParsedJsonl) (g : Reading)
      → is_empty (trim raw) ≡ false
      → read (trim raw) ≡ g
      → Accounts (n + 1) lines rest
      → (length (add_reading read n g rest).turns + length (add_reading read n g rest).rejected
          ≡ suc (count_if nonblank lines))
        × All (Located n (raw ∷ lines)) (add_reading read n g rest).rejected
  Accounts-for n raw lines rest (turn t) e q (c, a) =
      (omega (arith, c), Located-later-All n raw lines rest.rejected a)
  Accounts-for n raw lines rest (refused reason) e q (c, a) =
      let at_first : n - n ≡ 0 = omega arith in
      (
        omega (arith, c),
        (
          (omega arith, (raw, rw at_first refl, e, q)),
          Located-later-All n raw lines rest.rejected a,
        ),
      )

  parse_lines-Accounts : (n : ℕ) (lines : List String) → Accounts n lines (parse_lines read n lines)
  unfolding parse_lines count_if
  parse_lines-Accounts n [] = (refl, tt)
  parse_lines-Accounts n (raw ∷ lines) = elim (Bool-cases (is_empty (trim raw))) [
    | inl blank ↦
        let (c, a) = parse_lines-Accounts (n + 1) lines in
        rw blank (c, Located-later-All n raw lines (parse_lines read (n + 1) lines).rejected a)
    | inr full ↦ rw full (
        Accounts-for n raw lines (parse_lines read (n + 1) lines) (read (trim raw)) full refl
          (parse_lines-Accounts (n + 1) lines))
  ]

  -- Every line that is not blank becomes a turn or a rejected entry, never both and never neither;
  -- and each rejected entry names, counted from 1, a line of the text that was refused for the
  -- reason given.
  pub parse_jsonl_accounts :
      (text : String)
      → (length (parse_jsonl read text).turns + length (parse_jsonl read text).rejected
          ≡ count_if (λ raw. not (is_empty (trim raw))) (split_lines false "" text))
        × All (Located 1 (split_lines false "" text)) (parse_jsonl read text).rejected
  unfolding parse_jsonl
  parse_jsonl_accounts text = parse_lines-Accounts 1 (split_lines false "" text)
