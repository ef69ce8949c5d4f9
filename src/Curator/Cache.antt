-- ===== src/Curator/Cache.antt =====
-- How old the settings served by server/src/curator.ts can be.
use mcp_zeromem.Common.{
  ℕ, ◌+◌, ◌-◌, ◌≤◌, ◌<◌, String, true, Option, none, some, List, [], ◌∷◌, ◌≡◌, refl, ap, ltb,
  or_else, arith, inl, inr, Bool-cases, All, ◌∙◌,
}
use mcp_zeromem.Curator.{
  CuratorConfig, CuratorSettingsUpdate, CuratorSettingsStore, cache_ms, if_fresh, keep, config_from,
  config, token, token_from, merge, update_settings, create,
}

-- What writes the cache, whatever calls overlap: the engine's answer that arrives for a `config()` which
-- had found the cache stale, and new settings that the engine has stored.
pub data Call : Type 0 where
  arrives : CuratorConfig → ℕ → Call
  writes : CuratorConfig → ℕ → Call

abbrev pub after : Call → CuratorSettingsStore → CuratorSettingsStore
after (arrives answer later) s = (config_from none answer later s).1
after (writes c later) s = keep c later s

unfoldable pub run : List Call → CuratorSettingsStore → CuratorSettingsStore
run [] s = s
run (e ∷ es) s = run es (after e s)

-- What the engine says in a call from the time t on is c.
abbrev pub Says : ℕ → CuratorConfig → Call → Type 0
Says t c (arrives answer later) = t ≤ later → answer ≡ c
Says t c (writes d later) = t ≤ later → d ≡ c

-- What is cached from the time t on is c.
abbrev Holds : ℕ → CuratorConfig → Option (CuratorConfig × ℕ) → Type 0
Holds t c none = Unit
Holds t c (some (d, since)) = t ≤ since → d ≡ c

run-Holds :
    (t : ℕ) (c : CuratorConfig) (es : List Call) (s : CuratorSettingsStore)
    → All (Says t c) es
    → Holds t c s.cached
    → Holds t c (run es s).cached
unfolding run
run-Holds t c [] s a h = h
run-Holds t c (arrives answer later ∷ es) s (p, a) h = run-Holds t c es _ a p
run-Holds t c (writes d later ∷ es) s (p, a) h = run-Holds t c es _ a p

config_from-settled :
    (t now : ℕ) (c : CuratorConfig) (o : Option (CuratorConfig × ℕ)) (later : ℕ)
    (s : CuratorSettingsStore)
    → t + 5000 ≤ now
    → Holds t c o
    → (config_from (if_fresh now o) c later s).0 ≡ c
config_from-settled t now c none later s n h = refl
config_from-settled t now c (some (d, since)) later s n h =
    elim (Bool-cases (ltb (now - since) cache_ms)) [
      | inl e ↦ let recent : now - since < 5000 = ground arith in rw e (h (omega arith))
      | inr e ↦ rw e refl
    ]

-- When what the engine answers or stores from the time t on is c, as after a change made by another process, then
-- whatever was cached before and however calls overlap, the settings served five seconds after t or later are c.
pub config_settled :
    (t now later : ℕ) (c : CuratorConfig) (env_token : Option String) (es : List Call)
    → All (Says t c) es
    → t + 5000 ≤ now
    → (config now c later (run es (create env_token))).0 ≡ c
unfolding config create
config_settled t now later c env_token es a n =
    config_from-settled t now c _ later _ n (run-Holds t c es (create env_token) a tt)

recent_ltb : (now since : ℕ) → now < since + 5000 → ltb (now - since) cache_ms ≡ true
recent_ltb now since n = ground arith

keep-config :
    (now since later : ℕ) (c answer : CuratorConfig) (s : CuratorSettingsStore)
    → now < since + 5000
    → (config now answer later (keep c since s)).0 ≡ c
unfolding config
keep-config now since later c answer s n = rw (recent_ltb now since n) refl

abbrev pub first_given : Option String → Option String → Option String
first_given none u = u
first_given (some t) u = some t

keep-token_from :
    (o : Option String) (now since later : ℕ) (c answer : CuratorConfig) (s : CuratorSettingsStore)
    → now < since + 5000
    → (token_from o now answer later (keep c since s)).0 ≡ first_given o c.token
unfolding token_from
keep-token_from none now since later c answer s n =
    ap (λ (d : CuratorConfig). d.token) (keep-config now since later c answer s n)
keep-token_from (some t) now since later c answer s n = refl

-- Where the engine stores settings as they are given, an update is served at once and for five seconds, without asking
-- the engine again: the token is the process's own if it has one, else the new one, none if it is cleared, and the
-- stored one if the update names none.
pub update-token :
    (set_curator_config : CuratorConfig → CuratorConfig)
    → ((c : CuratorConfig) → set_curator_config c ≡ c)
    → (current answer : CuratorConfig) (update : CuratorSettingsUpdate) (since now later : ℕ)
    → (s : CuratorSettingsStore) → now < since + 5000
    → (token now answer later (update_settings set_curator_config current update since s)).0
      ≡ first_given s.env_token (or_else update.token current.token)
unfolding token update_settings merge
update-token set_curator_config keeps current answer update since now later s n =
    keep-token_from s.env_token now since later (set_curator_config (merge current update)) answer s
      n
    ∙ ap (λ (d : CuratorConfig). first_given s.env_token d.token) (keeps (merge current update))
