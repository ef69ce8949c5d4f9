-- ===== src/Recall/Clean.antt =====
-- What `normalise` of server/src/gateway/tools/recall.ts leaves of a text.
use Prim.Native.Char.{Char, code}
use Prim.Native.String.{[], ◌∷◌}
use mcp_zeromem.Common.{
  ℕ, ◌≤◌, String, Bool, true, false, not, ◌&&◌, ◌⊎◌, ◌≡◌, refl, ap, ◌∙◌, arith, leb, ◌==◌, if_keeps,
  if_cases, inl, inr,
}
use mcp_zeromem.Common.Text.{is_space, is_line_end, trim, trim_start, trim_end, trim_cons}
use mcp_zeromem.Recall.Text.{
  unify, strip_blanks, squeeze, normalise, is_blank, at_line_end, run_after,
}

-- No carriage return.
abbrev pub HasNoReturn : String → Type 0
HasNoReturn [] = Unit
HasNoReturn (c ∷ s) = ((code c == 13) ≡ false) × HasNoReturn s

-- No space or tab before the end of a line.
abbrev pub IsTidy : String → Type 0
IsTidy [] = Unit
IsTidy (c ∷ s) = ((is_blank c && at_line_end s) ≡ false) × IsTidy s

-- Never more than two line feeds in a row, `n` standing just before.
abbrev pub IsTight : ℕ → String → Type 0
IsTight n [] = Unit
IsTight n (c ∷ s) = ((code c == 10 && leb 2 n) ≡ false) × IsTight (run_after c n) s

-- White space neither in front nor at the end.
abbrev pub starts_bare : String → Bool
starts_bare [] = true
starts_bare (c ∷ s) = not (is_space c)

abbrev pub EndsBare : String → Type 0
EndsBare [] = Unit
EndsBare (c ∷ []) = is_space c ≡ false
EndsBare (c ∷ d ∷ s) = EndsBare (d ∷ s)

abbrev pub IsClean : String → Type 0
IsClean s = HasNoReturn s × IsTidy s × IsTight 0 s × (starts_bare s ≡ true) × EndsBare s

unify-HasNoReturn : (b : Bool) (s : String) → HasNoReturn (unify b s)
unfolding unify
unify-HasNoReturn b [] = tt
unify-HasNoReturn b (c ∷ s) = ground (arith, unify-HasNoReturn (code c == 13) s)

strip-HasNoReturn : (s : String) → HasNoReturn s → HasNoReturn (strip_blanks s)
unfolding strip_blanks
strip-HasNoReturn [] h = tt
strip-HasNoReturn (c ∷ s) (p, h) =
    if_keeps HasNoReturn (is_blank c && at_line_end (strip_blanks s)) _ _ (strip-HasNoReturn s h)
      (p, strip-HasNoReturn s h)

strip-IsTidy : (s : String) → IsTidy (strip_blanks s)
unfolding strip_blanks
strip-IsTidy [] = tt
strip-IsTidy (c ∷ s) =
    if_cases IsTidy (is_blank c && at_line_end (strip_blanks s)) _ _ (λ e. strip-IsTidy s)
      (λ e. (e, strip-IsTidy s))

squeeze-HasNoReturn : (n : ℕ) (s : String) → HasNoReturn s → HasNoReturn (squeeze n s)
unfolding squeeze
squeeze-HasNoReturn n [] h = tt
squeeze-HasNoReturn n (c ∷ s) (p, h) =
    let rest = squeeze-HasNoReturn (run_after c n) s h in
    if_keeps HasNoReturn (code c == 10 && leb 2 n) _ _ rest (p, rest)

-- The next character stays if it does not end the line.
squeeze-at_line_end :
    (n : ℕ) (s : String) → at_line_end s ≡ false → at_line_end (squeeze n s) ≡ false
unfolding squeeze is_line_end
squeeze-at_line_end n [] h = cc
squeeze-at_line_end n (c ∷ s) h = ground (arith)

squeeze-IsTidy : (n : ℕ) (s : String) → IsTidy s → IsTidy (squeeze n s)
unfolding squeeze
squeeze-IsTidy n [] h = tt
squeeze-IsTidy n (c ∷ s) (p, h) =
    let rest = squeeze-IsTidy (run_after c n) s h in
    if_keeps IsTidy (code c == 10 && leb 2 n) _ _ rest
      (ground (arith, squeeze-at_line_end (run_after c n) s), rest)

IsTight-le : (m n : ℕ) (s : String) → m ≤ n → IsTight n s → IsTight m s
IsTight-le m n [] h t = tt
IsTight-le m n (c ∷ s) h (p, t) =
    (ground arith, IsTight-le (run_after c m) (run_after c n) s (ground arith) t)

-- Where a line feed is dropped, two stand before what follows already.
squeeze-IsTight : (n : ℕ) (s : String) → IsTight n (squeeze n s)
unfolding squeeze
squeeze-IsTight n [] = tt
squeeze-IsTight n (c ∷ s) =
    let rest = squeeze-IsTight (run_after c n) s in
    if_cases (IsTight n) (code c == 10 && leb 2 n) _ _
      (λ e. IsTight-le n (run_after c n) (squeeze (run_after c n) s) (ground arith) rest)
      (λ e. (e, rest))

trim_start-HasNoReturn : (s : String) → HasNoReturn s → HasNoReturn (trim_start s)
unfolding trim_start
trim_start-HasNoReturn [] h = tt
trim_start-HasNoReturn (c ∷ s) (p, h) =
    if_keeps HasNoReturn (is_space c) _ _ (trim_start-HasNoReturn s h) (p, h)

trim_start-IsTidy : (s : String) → IsTidy s → IsTidy (trim_start s)
unfolding trim_start
trim_start-IsTidy [] h = tt
trim_start-IsTidy (c ∷ s) (p, h) = if_keeps IsTidy (is_space c) _ _ (trim_start-IsTidy s h) (p, h)

trim_start-IsTight : (n : ℕ) (s : String) → IsTight n s → IsTight 0 (trim_start s)
unfolding trim_start
trim_start-IsTight n [] h = tt
trim_start-IsTight n (c ∷ s) (p, h) =
    if_keeps (IsTight 0) (is_space c) _ _ (trim_start-IsTight (run_after c n) s h)
      (IsTight-le 0 n (c ∷ s) (omega arith) (p, h))

trim_start-starts_bare : (s : String) → starts_bare (trim_start s) ≡ true
unfolding trim_start
trim_start-starts_bare [] = refl
trim_start-starts_bare (c ∷ s) =
    if_cases (λ t. starts_bare t ≡ true) (is_space c) _ _ (λ e. trim_start-starts_bare s)
      (λ e. ap not e)

trim_cons_keeps :
    (P : String → Type 0) (c : Char) (b : Bool) (t : String)
    → P []
    → P (c ∷ t)
    → P (trim_cons c b t)
trim_cons_keeps P c true [] p q = p
trim_cons_keeps P c false [] p q = q
trim_cons_keeps P c true (d ∷ t) p q = q
trim_cons_keeps P c false (d ∷ t) p q = q

trim_end-HasNoReturn : (s : String) → HasNoReturn s → HasNoReturn (trim_end s)
unfolding trim_end
trim_end-HasNoReturn [] h = tt
trim_end-HasNoReturn (c ∷ s) (p, h) =
    trim_cons_keeps HasNoReturn c (is_space c) (trim_end s) tt (p, trim_end-HasNoReturn s h)

trim_end-IsTight : (n : ℕ) (s : String) → IsTight n s → IsTight n (trim_end s)
unfolding trim_end
trim_end-IsTight n [] h = tt
trim_end-IsTight n (c ∷ s) (p, h) =
    trim_cons_keeps (IsTight n) c (is_space c) (trim_end s) tt
      (p, trim_end-IsTight (run_after c n) s h)

trim_end-starts_bare : (s : String) → starts_bare s ≡ true → starts_bare (trim_end s) ≡ true
unfolding trim_end
trim_end-starts_bare [] h = refl
trim_end-starts_bare (c ∷ s) h =
    trim_cons_keeps (λ t. starts_bare t ≡ true) c (is_space c) (trim_end s) refl h

trim_cons-EndsBare :
    (c : Char) (b : Bool) (t : String) → is_space c ≡ b → EndsBare t → EndsBare (trim_cons c b t)
trim_cons-EndsBare c true [] e h = tt
trim_cons-EndsBare c false [] e h = e
trim_cons-EndsBare c true (d ∷ t) e h = h
trim_cons-EndsBare c false (d ∷ t) e h = h

trim_end-EndsBare : (s : String) → EndsBare (trim_end s)
unfolding trim_end
trim_end-EndsBare [] = tt
trim_end-EndsBare (c ∷ s) =
    trim_cons-EndsBare c (is_space c) (trim_end s) refl (trim_end-EndsBare s)

-- The first character of what is left is that of the text.
trim_end-at_line_end : (s : String) → (trim_end s ≡ []) ⊎ (at_line_end (trim_end s) ≡ at_line_end s)
unfolding trim_end
trim_end-at_line_end [] = inl refl
trim_end-at_line_end (c ∷ s) = head (is_space c) (trim_end s)
  where
    head :
        (b : Bool) (t : String)
        → (trim_cons c b t ≡ []) ⊎ (at_line_end (trim_cons c b t) ≡ is_line_end c)
    head true [] = inl refl
    head false [] = inr refl
    head true (d ∷ t) = inr refl
    head false (d ∷ t) = inr refl

trim_cons-IsTidy :
    (c : Char) (b : Bool) (t : String)
    → is_space c ≡ b
    → (t ≡ []) ⊎ ((is_blank c && at_line_end t) ≡ false)
    → IsTidy t
    → IsTidy (trim_cons c b t)
unfolding is_space
trim_cons-IsTidy c true [] e o h = tt
trim_cons-IsTidy c false [] e o h = (ground arith, tt)
trim_cons-IsTidy c true (d ∷ t) e (inl n) h = absurd (cc)
trim_cons-IsTidy c true (d ∷ t) e (inr p) h = (p, h)
trim_cons-IsTidy c false (d ∷ t) e (inl n) h = absurd (cc)
trim_cons-IsTidy c false (d ∷ t) e (inr p) h = (p, h)

trim_end-IsTidy : (s : String) → IsTidy s → IsTidy (trim_end s)
unfolding trim_end
trim_end-IsTidy [] h = tt
trim_end-IsTidy (c ∷ s) (p, h) =
    trim_cons-IsTidy c (is_space c) (trim_end s) refl before (trim_end-IsTidy s h)
  where
    before : (trim_end s ≡ []) ⊎ ((is_blank c && at_line_end (trim_end s)) ≡ false)
    before = elim (trim_end-at_line_end s) [
      | inl e ↦ inl e
      | inr e ↦ inr (ap (λ b. is_blank c && b) e ∙ p)
    ]

-- What every pass establishes, the later ones keep.
pub normalised-IsClean : (s : String) → IsClean (normalise s)
unfolding normalise trim
normalised-IsClean s =
    let a = unify false s in
    let b = strip_blanks a in
    let c = squeeze 0 b in
    let d = trim_start c in
    (
      trim_end-HasNoReturn d (
          trim_start-HasNoReturn c
            (squeeze-HasNoReturn 0 b (strip-HasNoReturn a (unify-HasNoReturn false s)))),
      trim_end-IsTidy d (trim_start-IsTidy c (squeeze-IsTidy 0 b (strip-IsTidy a))),
      trim_end-IsTight 0 d (trim_start-IsTight 0 c (squeeze-IsTight 0 b)),
      trim_end-starts_bare d (trim_start-starts_bare c),
      trim_end-EndsBare d,
    )
