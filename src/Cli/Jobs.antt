-- ===== src/Cli/Jobs.antt =====
-- That the jobs of server/src/curate.ts ask for prompts that server/src/gateway/prompts.ts serves.
use mathlib.Core.Path.{subst}
use mcp_zeromem.Common.{
  ℕ, String, Bool, true, false, not, ◌≡◌, refl, ap, ◌∙◌, ◌⊎◌, inl, inr, All, Option, none, some,
  List, [], ◌∷◌, str_eq, eq_iff, Bool-cases,
}
use mcp_zeromem.Common.Text.{truthy}
use mcp_zeromem.Config.Env.{Env, look_up}
use mcp_zeromem.Config.Schema.{is_given}
use mcp_zeromem.Gateway.Prompts as Prompts
use mcp_zeromem.Gateway.Prompts.{CuratorPrompt, find_prompt, served_prompts}
use mcp_zeromem.Cli.{
  Values, jobs, Looked, own, inherited, found_job, look_up_job, args_of, one_argument,
  lacks_session,
}
use mcp_zeromem.Cli.Start.{Plan, go, start, first_job}
use mcp_zeromem.Cli.Plans.{start-IsPlanned}

some_value : {v w : String} → some v ≡ some w → v ≡ w
some_value e = cc

look_up-All {ℓ} :
    (P : String × String → Type ℓ) (l : List (String × String)) (k v : String)
    → All P l
    → look_up l k ≡ some v
    → P (k, v)
look_up-All P [] k v a e = absurd (cc)
look_up-All P ((j, w) ∷ rest) k v (p, a) e = elim (Bool-cases (str_eq j k)) [
  | inl same ↦
      let value : w ≡ v = some_value (rw same at e) in
      subst (λ (x : String). P (x, v)) ((eq_iff j k).0 same)
        (subst (λ (x : String). P (j, x)) value p)
  | inr other ↦ look_up-All P rest k v a (rw other at e)
]

-- The prompt is served to a curator, every argument given is the one that it has, and that is given if it must be,
-- unless the session job lacks it.
abbrev Fits : Values → String × String → Type 0
Fits values (job, name) =
    (p : CuratorPrompt) × (find_prompt (served_prompts true) name ≡ some p)
    × All (λ (a : String × String). a.0 ≡ p.argument) (args_of job values)
    × ((p.required ≡ false)
        ⊎ ((text : String) × (args_of job values ≡ (p.argument, text) ∷ []))
        ⊎ (lacks_session job values ≡ true))

one_argument-All :
    (name : String) (o : Option String)
    → All (λ (a : String × String). a.0 ≡ name) (one_argument name o)
one_argument-All name none = tt
one_argument-All name (some text) = (refl, tt)

session_fits :
    (o : Option String)
    → ((text : String) × (one_argument "session_id" o ≡ ("session_id", text) ∷ []))
      ⊎ (not (is_given o) ≡ true)
session_fits none = inr refl
session_fits (some text) = inl (text, refl)

jobs_fit : (values : Values) → All (Fits values) jobs
unfolding jobs args_of served_prompts find_prompt
jobs_fit values =
    let session = truthy values.session in
    (
      (Prompts.sweep_prompt, refl, one_argument-All "focus" (truthy values.focus), inl refl),
      (
        (
          Prompts.session_prompt,
          refl,
          one_argument-All "session_id" session,
          inr (session_fits session),
        ),
        (
          (Prompts.notes_prompt, refl, one_argument-All "session_id" session, inl refl),
          (
            (
              Prompts.entities_prompt,
              refl,
              one_argument-All "entity" (truthy values.entity),
              inl refl,
            ),
            (
              (
                Prompts.brief_prompt,
                refl,
                one_argument-All "scope" (truthy values.scope),
                inl refl,
              ),
              tt,
            ),
          ),
        ),
      ),
    )

own-found :
    (is_inherited : String → Bool) (job name : String) (o : Option String)
    → found_job is_inherited job o ≡ some (own name)
    → o ≡ some name
own-found is_inherited job name none e = elim (Bool-cases (is_inherited job)) [
  | inl y ↦ let refuted : some (inherited job) ≡ some (own name) = rw y at e in absurd (cc)
  | inr n ↦ let refuted : ◌≡◌ {A = Option Looked} none (some (own name)) = rw n at e in absurd (cc)
]
own-found is_inherited job name (some v) e = cc

settled :
    (values : Values) (job name : String) (args : List (String × String))
    → Fits values (job, name)
    → lacks_session job values ≡ false
    → args ≡ args_of job values
    → (p : CuratorPrompt) × (find_prompt (served_prompts true) name ≡ some p)
      × All (λ (a : String × String). a.0 ≡ p.argument) args
      × ((p.required ≡ false) ⊎ ((text : String) × (args ≡ (p.argument, text) ∷ [])))
settled values job name args (p, found, all, inl free) s e = (p, found, rw e all, inl free)
settled values job name args (p, found, all, inr (inl (text, given))) s e =
    (p, found, rw e all, inr (text, e ∙ given))
settled values job name args (p, found, all, inr (inr lacks)) s e = absurd (cc)

module _ (resolve : String → String) (number : String → Option ℕ) (is_url : String → Bool)
    (is_inherited : String → Bool) (env : Env) (values : Values) where
  -- A run of a job of its own name asks for a prompt that a server serves to the curator; the arguments that it hands
  -- over are of the prompt's one name, and there is one if the prompt requires it.
  pub job_prompts :
      (positionals : List String) (plan : Plan) (name : String)
      → start resolve number is_url is_inherited env values positionals ≡ go plan
      → plan.prompt ≡ own name
      → (p : CuratorPrompt) × (find_prompt (served_prompts true) name ≡ some p)
        × All (λ (a : String × String). a.0 ≡ p.argument) plan.args
        × ((p.required ≡ false) ⊎ ((text : String) × (plan.args ≡ (p.argument, text) ∷ [])))
  job_prompts positionals plan name e own_name =
      let planned =
        start-IsPlanned resolve number is_url is_inherited env values positionals plan e in
      let job = first_job positionals in
      let known : look_up jobs job ≡ some name =
        unfold look_up_job in
        own-found is_inherited job name (look_up jobs job) (planned.prompt ∙ ap some own_name) in
      settled values job name plan.args
        (look_up-All (Fits values) jobs job name (jobs_fit values) known) planned.session
        planned.args
