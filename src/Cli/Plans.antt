-- ===== src/Cli/Plans.antt =====
-- What is known of every plan that `main` of server/src/curate.ts comes to.
use mathlib.Core.Path.{subst}
use mcp_zeromem.Common.{
  ℕ, ◌≤◌, String, Bool, false, ◌≡◌, refl, arith, Option, none, some, List, ltb, leb, length,
  if_cases,
}
use mcp_zeromem.Config.{Config}
use mcp_zeromem.Config.Env.{Env, env_value}
use mcp_zeromem.Config.Load.{Loaded, stdio, load_config}
use mcp_zeromem.Cli.{Values, Looked, look_up_job, args_of, lacks_session}
use mcp_zeromem.Cli.Settings.{AgentConfig, LoadedAgent, load_agent_config}
use mcp_zeromem.Cli.Start as Start
use mcp_zeromem.Cli.Start.{
  Target, remote, opened_here, Plan, Start, usage, refused, go, first_job, start,
}

module _ (resolve : String → String) (number : String → Option ℕ) (is_url : String → Bool)
    (is_inherited : String → Bool) (env : Env) (values : Values) where
  -- A remote server is only asked for without --dry-run and with a token; a store that is opened here is served
  -- read-only with --dry-run.
  abbrev pub IsReached : Target → Type 0
  IsReached (remote url token) =
      (values.dry_run ≡ false) × (env_value env "MCP_ZEROMEM_CURATOR_TOKEN" ≡ some token)
  IsReached (opened_here c) =
      (l : Config) × (load_config resolve number is_url env stdio ≡ Loaded.loaded l)
      × (c ≡ Start.served_config resolve number is_url is_inherited env values l)

  pub record IsPlanned (job : String) (p : Plan) : Type 0 where
    pub prompt : look_up_job is_inherited job ≡ some p.prompt
    pub session : lacks_session job values ≡ false
    pub args : p.args ≡ args_of job values
    pub steps : 1 ≤ p.max_steps
    pub target : IsReached p.target
    pub agent :
        (a : AgentConfig) × (load_agent_config number is_url env ≡ LoadedAgent.loaded a)
        × (p.llm ≡ a.llm)

  abbrev OfPlan : (Plan → Type 0) → Start → Type 0
  OfPlan P (go p) = P p
  OfPlan P _ = Unit {0}

  abbrev Served : Config → Config
  Served c = Start.served_config resolve number is_url is_inherited env values c

  stored-OfPlan :
      (P : Plan → Type 0) (plan : Target → Plan) (l : Loaded)
      → load_config resolve number is_url env stdio ≡ l
      → ((t : Target) → IsReached t → P (plan t))
      → OfPlan P (Start.opened_store resolve number is_url is_inherited env values plan l)
  stored-OfPlan P plan (Loaded.loaded c) e k = k (opened_here (Served c)) (c, e, refl)
  stored-OfPlan P plan (Loaded.refused x) e k = tt

  token-OfPlan :
      (P : Plan → Type 0) (plan : Target → Plan) (url : String) (o : Option String)
      → env_value env "MCP_ZEROMEM_CURATOR_TOKEN" ≡ o
      → values.dry_run ≡ false
      → ((t : Target) → IsReached t → P (plan t))
      → OfPlan P (Start.with_token resolve number is_url is_inherited env values plan url o)
  token-OfPlan P plan url none e d k = tt
  token-OfPlan P plan url (some token) e d k = k (remote url token) (d, e)

  connect-OfPlan :
      (P : Plan → Type 0) (plan : Target → Plan) (o : Option String)
      → ((t : Target) → IsReached t → P (plan t))
      → OfPlan P (Start.connect resolve number is_url is_inherited env values plan o)
  connect-OfPlan P plan none k =
      stored-OfPlan P plan (load_config resolve number is_url env stdio) refl k
  connect-OfPlan P plan (some url) k =
      if_cases (OfPlan P) values.dry_run _ _ (λ d. tt)
        (λ d. token-OfPlan P plan url (env_value env "MCP_ZEROMEM_CURATOR_TOKEN") refl d k)

  module _ (job : String) (prompt : Looked) (known : look_up_job is_inherited job ≡ some prompt)
      (session : lacks_session job values ≡ false) where
    steps-OfPlan :
        (a : AgentConfig) (o : Option ℕ)
        → load_agent_config number is_url env ≡ LoadedAgent.loaded a
        → OfPlan
            (IsPlanned job)
            (Start.with_steps resolve number is_url is_inherited env values prompt job a o)
    steps-OfPlan a none e = tt
    steps-OfPlan a (some n) e =
        if_cases (OfPlan (IsPlanned job)) (leb 1 n) _ _
          (λ l.
            connect-OfPlan (IsPlanned job)
              (λ (t : Target). record {
                prompt = prompt;
                args = args_of job values;
                llm = a.llm;
                max_steps = n;
                target = t;
              })
              a.mcp_url
              (λ t r. record {
                prompt = known;
                session = session;
                args = refl;
                steps = ground arith;
                target = r;
                agent = (a, e, refl);
              }))
          (λ l. tt)

    agent-OfPlan :
        (a : LoadedAgent)
        → load_agent_config number is_url env ≡ a
        → OfPlan
            (IsPlanned job)
            (Start.with_agent resolve number is_url is_inherited env values prompt job a)
    agent-OfPlan (LoadedAgent.invalid keys) e = tt
    agent-OfPlan (LoadedAgent.loaded a) e =
        steps-OfPlan a
          (Start.steps_of resolve number is_url is_inherited env values values.max_steps
            a.max_steps)
          e

  prompt-OfPlan :
      (positionals : List String) (job : String) (o : Option Looked)
      → look_up_job is_inherited job ≡ o
      → OfPlan
          (IsPlanned job)
          (Start.with_prompt resolve number is_url is_inherited env values positionals job o)
  prompt-OfPlan positionals job none e = tt
  prompt-OfPlan positionals job (some prompt) e =
      if_cases (OfPlan (IsPlanned job)) (ltb 1 (length positionals)) _ _ (λ l. tt)
        (λ l.
          if_cases (OfPlan (IsPlanned job)) (lacks_session job values) _ _ (λ m. tt)
            (λ m. agent-OfPlan job prompt e m (load_agent_config number is_url env) refl))

  start-OfPlan :
      (positionals : List String)
      → OfPlan
          (IsPlanned (first_job positionals))
          (start resolve number is_url is_inherited env values positionals)
  unfolding start
  start-OfPlan positionals =
      if_cases (OfPlan (IsPlanned (first_job positionals))) values.help _ _ (λ h. tt)
        (λ h.
          prompt-OfPlan positionals (first_job positionals)
            (look_up_job is_inherited (first_job positionals)) refl)

  pub start-IsPlanned :
      (positionals : List String) (p : Plan)
      → start resolve number is_url is_inherited env values positionals ≡ go p
      → IsPlanned (first_job positionals) p
  start-IsPlanned positionals p e =
      subst (OfPlan (IsPlanned (first_job positionals))) e (start-OfPlan positionals)
