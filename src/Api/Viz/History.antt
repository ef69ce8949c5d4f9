-- ===== src/Api/Viz/History.antt =====
-- How the history of the harness is read (server/src/api/routes/viz/eval.ts).
use Prim.Native.Char.{code}
use Prim.Native.String
use text.Mathlib.TextLemmas
use text.Mathlib.Text.{starts_with}
use mcp_zeromem.Common.{
  String, ◌||◌, Option, none, some, List, [], ◌∷◌, ◌++◌, ◌≡◌, refl, ap, ◌∙◌, ◌==◌, Bool-cases, inl,
  inr,
}
use mcp_zeromem.Common.Text.{trim, is_empty}
use mcp_zeromem.Api.Viz.{split_feeds, add_run, runs_of, parse_eval_history}

split_feeds-append :
    (cur a b : String)
    → split_feeds cur (String.◌++◌ a (String.◌∷◌ "\n" b)) ≡ split_feeds cur a ++ split_feeds "" b
unfolding split_feeds
split_feeds-append cur String.[] b =
    ap (split_feeds cur) (TextLemmas.nil-append (String.◌∷◌ "\n" b))
split_feeds-append cur (String.◌∷◌ c a) b =
    let grown = String.◌++◌ cur (String.◌∷◌ c String.[]) in
    ap (split_feeds cur) (TextLemmas.cons-append c a (String.◌∷◌ "\n" b))
    ∙ elim (Bool-cases (code c == 10)) [
      | inl e ↦ rw e (ap (λ l. cur ∷ l) (split_feeds-append "" a b))
      | inr e ↦ rw e (split_feeds-append grown a b)
    ]

module _ {R : Type 0} (read_run : String → Option R) where
  runs_of-append :
      (xs ys : List String)
      → runs_of read_run (xs ++ ys) ≡ runs_of read_run xs ++ runs_of read_run ys
  unfolding runs_of
  runs_of-append [] ys = refl
  runs_of-append (raw ∷ xs) ys =
      let line = trim raw in
      elim (Bool-cases (is_empty line || starts_with line "#")) [
        | inl e ↦ rw e (runs_of-append xs ys)
        | inr e ↦ rw e (added (read_run line) _ _ _ (runs_of-append xs ys))
      ]
    where
      added :
          (o : Option R) (l k m : List R)
          → l ≡ k ++ m
          → add_run read_run o l ≡ add_run read_run o k ++ m
      added none l k m h = h
      added (some run) l k m h = ap (λ x. run ∷ x) h

  -- Every line is read on its own: the runs of a text and of what follows it on the next line are the runs of the one
  -- and then those of the other, whatever either holds.
  pub parse_eval_history-lines :
      (a b : String)
      → parse_eval_history read_run (String.◌++◌ a (String.◌∷◌ "\n" b))
        ≡ parse_eval_history read_run a ++ parse_eval_history read_run b
  unfolding parse_eval_history
  parse_eval_history-lines a b =
      ap (runs_of read_run) (split_feeds-append "" a b)
      ∙ runs_of-append (split_feeds "" a) (split_feeds "" b)
