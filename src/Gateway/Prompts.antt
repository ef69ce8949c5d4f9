-- ===== src/Gateway/Prompts.antt =====
-- The curator's prompts (server/src/gateway/prompts.ts). The titles and descriptions are left out, and so
-- are the files under docs/, whose reading is a parameter.
use Prim.Native.String.{◌++◌}
use mcp_zeromem.Common.{
  String, Bool, true, false, Option, none, some, List, [], ◌∷◌, ◌++◌ as list_append, str_eq,
  if◌then◌else◌,
}
use mcp_zeromem.Common.Text.{trim, truthy, join}
use mcp_zeromem.Config.Env.{look_up}
use mcp_zeromem.Api.Engine.{Called, returned, rejected}

-- A prompt with its one argument; `line` is what its section says of that argument.
pub record CuratorPrompt : Type 0 where
  pub name : String
  pub doc : String
  pub argument : String
  pub required : Bool
  pub line : String → String

abbrev pub section : String → String
section line = join "\n" ("## This run" ∷ "" ∷ line ∷ [])

unfoldable pub sweep_prompt : CuratorPrompt
sweep_prompt = record {
  name = "zeromem_curate";
  doc = "curator-playbook.md";
  argument = "focus";
  required = false;
  line = λ focus. "Work only on these kinds: " ++ focus ++ ".";
}

unfoldable pub session_prompt : CuratorPrompt
session_prompt = record {
  name = "zeromem_curate_session";
  doc = "curator-session.md";
  argument = "session_id";
  required = true;
  line = λ id. "Curate session `" ++ id ++ "`, and no other. Nothing outside it is yours this run.";
}

unfoldable pub notes_prompt : CuratorPrompt
notes_prompt = record {
  name = "zeromem_curate_notes";
  doc = "curator-notes.md";
  argument = "session_id";
  required = false;
  line = λ id.
      "Work on session `" ++ id
      ++ "` only: take its turns as the episode and skip the candidate sweep.";
}

unfoldable pub entities_prompt : CuratorPrompt
entities_prompt = record {
  name = "zeromem_curate_entities";
  doc = "curator-entities.md";
  argument = "entity";
  required = false;
  line = λ name.
      "Settle `" ++ name ++ "` and the names that appear beside it; skip the candidate sweep.";
}

unfoldable pub brief_prompt : CuratorPrompt
brief_prompt = record {
  name = "zeromem_curate_brief";
  doc = "curator-brief.md";
  argument = "scope";
  required = false;
  line = λ scope. "Write the brief of scope `" ++ scope ++ "` only; skip the candidate sweep.";
}

unfoldable pub prompts : List CuratorPrompt
unfolding sweep_prompt session_prompt notes_prompt entities_prompt brief_prompt
prompts = sweep_prompt ∷ session_prompt ∷ notes_prompt ∷ entities_prompt ∷ brief_prompt ∷ []

abbrev pub read_only_note : String
read_only_note = join "\n" (
    "## This server is read-only" ∷ ""
    ∷ "The write tools (`zeromem_curate_apply`, `zeromem_curate_undo`) are not served here, so nothing you"
    ∷ "decide can be applied and there is no run to close. Read and judge as the procedure says, then reply"
    ∷ "with the actions you would have applied — each as the object `zeromem_curate_apply` takes, with its"
    ∷ "reason — for a person to apply." ∷ [])

abbrev pub section_of : CuratorPrompt → Option String → Option String
section_of p none = none
section_of p (some text) = some (section (p.line text))

abbrev pub trimmed_argument : Option String → Option String
trimmed_argument none = none
trimmed_argument (some text) = truthy (some (trim text))

-- `thisRun`
unfoldable pub this_run : CuratorPrompt → Option String → Option String
unfolding trim join
this_run p given = section_of p (trimmed_argument given)

-- The documents read so far, by name.
abbrev pub Docs : Type 0
Docs = List (String × String)

-- `readFileSync`, whose text is kept.
abbrev pub keep_doc : Docs → String → Called String → Called String × Docs
keep_doc docs file (returned text) = (returned text, list_append docs ((file, text) ∷ []))
keep_doc docs file (rejected f) = (rejected f, docs)

unfoldable pub doc : (String → Called String) → Docs → String → Called String × Docs
doc read_file docs file = elim (look_up docs file) [
  | none ↦ keep_doc docs file (read_file file)
  | some text ↦ (returned text, docs)
]

abbrev pub add_part : Option String → List String → List String
add_part none parts = parts
add_part (some part) parts = part ∷ parts

-- The parts of a prompt's text after its document.
unfoldable pub parts_after : CuratorPrompt → Option String → Bool → List String
unfolding this_run join
parts_after p given read_only =
    add_part (this_run p given) (if read_only then read_only_note ∷ [] else [])

abbrev pub with_doc :
    CuratorPrompt → Option String → Bool → Called String × Docs → Called String × Docs
with_doc p given read_only (returned text, docs) =
    (returned (join "\n\n" (text ∷ parts_after p given read_only)), docs)
with_doc p given read_only (rejected f, docs) = (rejected f, docs)

-- The callback of `registerPrompt`.
unfoldable pub prompt_text :
    (String → Called String) → Bool → CuratorPrompt → Option String → Docs → Called String × Docs
unfolding doc parts_after join
prompt_text read_file read_only p given docs = with_doc p given read_only (doc read_file docs p.doc)

-- The prompt of a name, where the server has prompts.
unfoldable pub find_prompt : List CuratorPrompt → String → Option CuratorPrompt
find_prompt [] name = none
find_prompt (p ∷ ps) name = if str_eq p.name name then some p else find_prompt ps name

unfoldable pub served_prompts : Bool → List CuratorPrompt
unfolding prompts
served_prompts curator = if curator then prompts else []
