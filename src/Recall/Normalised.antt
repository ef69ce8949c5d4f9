-- ===== src/Recall/Normalised.antt =====
-- Which texts `normalise` of server/src/gateway/tools/recall.ts leaves as they are.
use mathlib.Core.Path.{subst}
use Prim.Native.String.{[], ◌∷◌}
use mcp_zeromem.Common.{ℕ, String, Bool, true, false, ◌↔◌, ◌≡◌, refl, ap, ◌∙◌, arith}
use mcp_zeromem.Common.Text.{is_space, trim, trim_start, trim_end, trim_cons}
use mcp_zeromem.Recall.Clean.{
  HasNoReturn, IsTidy, IsTight, starts_bare, EndsBare, IsClean, normalised-IsClean,
}
use mcp_zeromem.Recall.Text.{unify, strip_blanks, squeeze, normalise, run_after}

unify_fixed : (s : String) → HasNoReturn s → unify false s ≡ s
unfolding unify
unify_fixed [] h = refl
unify_fixed (c ∷ s) (p, h) = rw p (ground (arith, unify_fixed s h))

strip_fixed : (s : String) → IsTidy s → strip_blanks s ≡ s
unfolding strip_blanks
strip_fixed [] h = refl
strip_fixed (c ∷ s) (p, h) = rw (strip_fixed s h, p) refl

squeeze_fixed : (n : ℕ) (s : String) → IsTight n s → squeeze n s ≡ s
unfolding squeeze
squeeze_fixed n [] h = refl
squeeze_fixed n (c ∷ s) (p, h) = rw (squeeze_fixed (run_after c n) s h, p) refl

trim_start_fixed : (s : String) → starts_bare s ≡ true → trim_start s ≡ s
unfolding trim_start
trim_start_fixed [] h = refl
trim_start_fixed (c ∷ s) h = ground arith

trim_end_fixed : (s : String) → EndsBare s → trim_end s ≡ s
unfolding trim_end
trim_end_fixed [] h = refl
trim_end_fixed (c ∷ []) h = rw h refl
trim_end_fixed (c ∷ d ∷ s) h =
    ap (trim_cons c (is_space c)) (trim_end_fixed (d ∷ s) h) ∙ whole (is_space c)
  where
    whole : (b : Bool) → trim_cons c b (d ∷ s) ≡ c ∷ d ∷ s
    whole true = refl
    whole false = refl

clean_fixed : (s : String) → IsClean s → normalise s ≡ s
unfolding normalise trim
clean_fixed s (r, t, n, b, e) =
    rw (unify_fixed s r, strip_fixed s t, squeeze_fixed 0 s n, trim_start_fixed s b)
      (trim_end_fixed s e)

-- What `normalise` makes of any text has no carriage return, no space or tab before the end of a line, never more than
-- two line feeds in a row, and no white space in front or at the end; and these are exactly the texts that it leaves as
-- they are.
pub normalise-IsClean : (s : String) → IsClean (normalise s) × (IsClean s ↔ (normalise s ≡ s))
normalise-IsClean s =
    (normalised-IsClean s, (clean_fixed s, λ e. subst IsClean e (normalised-IsClean s)))
