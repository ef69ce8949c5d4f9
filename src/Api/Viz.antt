-- ===== src/Api/Viz.antt =====
-- The reads behind the visualisations (server/src/api/routes/viz). What a schema makes of a query, what
-- the history file holds and what a line of it is read as are arguments.
pub mod History
use Prim.Native.Char.{Char, code}
use Prim.Native.String
use mcp_zeromem.Common.{
  ℕ, String, Bool, true, false, ◌||◌, ◌&&◌, Option, none, some, List, [], ◌∷◌, ◌==◌, length,
  or_else, if◌then◌else◌,
}
use mcp_zeromem.Common.Text.{trim, is_empty, truthy}
use text.Mathlib.Text.{starts_with}
use mcp_zeromem.Api.{World, Ending, done, thrown, call, await, parse}
use mcp_zeromem.Api.Engine.{Failure, Engine, PageQuery}
use mcp_zeromem.Api.Reply.{
  Checked, Thrown, http, engine, Body, answer, turns_with_entities, health, eval_history,
}
use mcp_zeromem.Api.Routes.{no_session}

-- `text.split('\n')`, with the line so far.
unfoldable pub split_feeds : String → String → List String
split_feeds cur String.[] = cur ∷ []
split_feeds cur (String.◌∷◌ c s) =
    let is_end = code c == 10 in
    let rest = split_feeds (if is_end then "" else String.◌++◌ cur (String.◌∷◌ c String.[])) s in
    if is_end then cur ∷ rest else rest

-- What `readFile` finds.
pub data FileRead : Type 0 where
  contents : String → FileRead
  missing : FileRead
  unreadable : Failure → FileRead

-- `defaultEvalHistoryPath`, with the path of the committed file.
unfoldable pub default_eval_history_path : Option String → String → String
unfolding trim
default_eval_history_path none committed = committed
default_eval_history_path (some override) committed =
    or_else (truthy (some (trim override))) committed

module _ {R : Type 0} (read_run : String → Option R) where
  abbrev pub add_run : Option R → List R → List R
  add_run none runs = runs
  add_run (some run) runs = run ∷ runs

  unfoldable pub runs_of : List String → List R
  unfolding trim
  runs_of [] = []
  runs_of (raw ∷ lines) =
      let rest = runs_of lines in
      let line = trim raw in
      if is_empty line || starts_with line "#" then rest else add_run (read_run line) rest

  unfoldable pub parse_eval_history : String → List R
  unfolding split_feeds runs_of
  parse_eval_history text = runs_of (split_feeds "" text)

pub data VizRequest (J : Type 0) : Type 0 where
  get_graph : Checked J → VizRequest J
  get_hierarchy : Checked J → VizRequest J
  get_session_turns : String → Checked PageQuery → VizRequest J
  get_projection : Checked J → VizRequest J
  get_growth : Checked J → VizRequest J
  get_health : VizRequest J
  get_eval : String → FileRead → (String → Option J) → VizRequest J

module _ {S J : Type 0} (e : Engine S J) where
  abbrev pub sent_answer : J → World S → Ending (Body J) × World S
  sent_answer a w = (done (answer a), w)

  abbrev pub after_inspection : String → PageQuery → List J → World S → Ending (Body J) × World S
  after_inspection id page found w =
      if length found == 0 && or_else page.offset 0 == 0
      then (thrown (no_session e id), w)
      else (done (turns_with_entities id found), w)

  abbrev pub sent_health : World S → Ending (Body J) × World S
  sent_health w = (done (health (e.health w.store).0), record w { store = (e.health w.store).1 })

  unfoldable pub show_history :
      String → FileRead → (String → Option J) → World S → Ending (Body J) × World S
  unfolding parse_eval_history
  show_history path (contents text) read_run w =
      (done (eval_history path (parse_eval_history read_run text)), w)
  show_history path missing read_run w =
      (done (eval_history path (parse_eval_history read_run "")), w)
  show_history path (unreadable f) read_run w = (thrown (engine f), w)

  unfoldable pub view : VizRequest J → World S → Ending (Body J) × World S
  unfolding show_history
  view (get_graph query) w =
      parse query (λ o v. await engine (call (e.graph_snapshot o) v) sent_answer) w
  view (get_hierarchy query) w =
      parse query (λ o v. await engine (call (e.hierarchy o) v) sent_answer) w
  view (get_session_turns id query) w =
      parse query
        (λ page v. await engine (call (e.turns_with_entities id page) v) (after_inspection id page))
        w
  view (get_projection query) w =
      parse query (λ o v. await engine (call (e.projection o) v) sent_answer) w
  view (get_growth query) w = parse query (λ o v. await engine (call (e.growth o) v) sent_answer) w
  view get_health w = sent_health w
  view (get_eval path file read_run) w = show_history path file read_run w
