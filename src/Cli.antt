-- ===== src/Cli.antt =====
-- The command that runs the curator (server/src/curate.ts): what its arguments and the environment make it
-- do, up to the run itself. Parameters are those of the configuration, and which names every object of
-- JavaScript inherits.
pub mod Settings
pub mod Start
pub mod Plans
pub mod DryRun
pub mod Jobs
mod Examples
use mcp_zeromem.Common.{
  ℕ, String, Bool, not, ◌&&◌, ◌||◌, Option, none, some, List, [], ◌∷◌, str_eq, if◌then◌else◌,
}
use mcp_zeromem.Common.Text.{truthy}
use mcp_zeromem.Config.Env.{look_up}
use mcp_zeromem.Config.Schema.{is_given}

-- The options, as `parseArgs` gives them.
pub record Values : Type 0 where
  pub focus : Option String
  pub session : Option String
  pub entity : Option String
  pub scope : Option String
  pub max_steps : Option String
  pub dry_run : Bool
  pub help : Bool

-- `JOBS`
unfoldable pub jobs : List (String × String)
jobs =
    ("sweep", "zeromem_curate")
    ∷ ("session", "zeromem_curate_session")
    ∷ ("notes", "zeromem_curate_notes")
    ∷ ("entities", "zeromem_curate_entities")
    ∷ ("brief", "zeromem_curate_brief")
    ∷ []

-- What `JOBS[job]` is, where it is not undefined.
pub data Looked : Type 0 where
  own : String → Looked
  inherited : String → Looked

abbrev pub found_job : (String → Bool) → String → Option String → Option Looked
found_job is_inherited job none = if is_inherited job then some (inherited job) else none
found_job is_inherited job (some prompt) = some (own prompt)

unfoldable pub look_up_job : (String → Bool) → String → Option Looked
unfolding jobs
look_up_job is_inherited job = found_job is_inherited job (look_up jobs job)

abbrev pub one_argument : String → Option String → List (String × String)
one_argument name none = []
one_argument name (some text) = (name, text) ∷ []

-- `args`
unfoldable pub args_of : String → Values → List (String × String)
args_of job values =
    if str_eq job "sweep"
    then one_argument "focus" (truthy values.focus)
    else if str_eq job "session" || str_eq job "notes"
    then one_argument "session_id" (truthy values.session)
    else if str_eq job "entities"
    then one_argument "entity" (truthy values.entity)
    else if str_eq job "brief"
    then one_argument "scope" (truthy values.scope)
    else []

-- The session job without a session.
abbrev pub lacks_session : String → Values → Bool
lacks_session job values = str_eq job "session" && not (is_given (truthy values.session))
