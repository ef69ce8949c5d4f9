-- ===== src/Discovery.antt =====
-- server/src/discovery/settings.ts: whether the server announces itself on the local network, with the
-- settings of shared/src/discovery.ts. `toLowerCase` and the tests of node:net are parameters.
mod Examples
use Prim.Native.Char.{Char, code}
use Prim.Native.String
use mcp_zeromem.Common.{
  ℕ, suc, String, Bool, true, false, not, ◌&&◌, ◌||◌, Option, none, some, ◌==◌, if◌then◌else◌,
  str_eq,
}
use mcp_zeromem.Common.Text.{trim}
use text.Mathlib.Text.{starts_with}

abbrev pub loopback_name : String
loopback_name = "localhost"

abbrev pub ipv4_loopback_prefix : String
ipv4_loopback_prefix = "127."

abbrev pub ipv6_loopback : String
ipv6_loopback = "::1"

abbrev pub mapped_ipv4_loopback_prefix : String
mapped_ipv4_loopback_prefix = "::ffff:127."

-- `.replace(/^\[|\]$/g, '')`, its two alternatives one after the other.
unfoldable pub strip_open : String → String
strip_open String.[] = String.[]
strip_open (String.◌∷◌ c s) = if code c == b'[' then s else String.◌∷◌ c s

abbrev pub last_bracket : Char → String → String
last_bracket c String.[] = if code c == b']' then String.[] else String.◌∷◌ c String.[]
last_bracket c (String.◌∷◌ d s) = String.◌∷◌ c (String.◌∷◌ d s)

unfoldable pub strip_close : String → String
strip_close String.[] = String.[]
strip_close (String.◌∷◌ c String.[]) = last_bracket c String.[]
strip_close (String.◌∷◌ c (String.◌∷◌ d s)) = String.◌∷◌ c (strip_close (String.◌∷◌ d s))

module _ (to_lower : String → String) (is_ipv4 is_ipv6 : String → Bool) where
  unfoldable pub is_loopback_address : String → Bool
  is_loopback_address address =
      if is_ipv4 address
      then starts_with address ipv4_loopback_prefix
      else if is_ipv6 address
      then str_eq address ipv6_loopback || starts_with address mapped_ipv4_loopback_prefix
      else str_eq address loopback_name

  unfoldable pub is_loopback_host : String → Bool
  unfolding is_loopback_address strip_open strip_close trim
  is_loopback_host host = is_loopback_address (strip_close (strip_open (to_lower (trim host))))

-- `stored` is the field `lan_advertise` of the settings last read or written; `told` counts the calls of
-- `onChange`.
pub record DiscoverySettingsStore : Type 0 where
  pub stored : Bool
  pub is_loopback_only : Bool
  pub told : ℕ

unfoldable pub create :
    (String → String) → (String → Bool) → (String → Bool) → Option String → DiscoverySettingsStore
unfolding is_loopback_host
create to_lower is_ipv4 is_ipv6 none = record { stored = false; is_loopback_only = false; told = 0 }
create to_lower is_ipv4 is_ipv6 (some host) = record {
  stored = false;
  is_loopback_only = is_loopback_host to_lower is_ipv4 is_ipv6 host;
  told = 0;
}

unfoldable pub is_advertise_requested : DiscoverySettingsStore → Bool
is_advertise_requested s = s.stored

unfoldable pub is_advertise_wanted : DiscoverySettingsStore → Bool
unfolding is_advertise_requested
is_advertise_wanted s = is_advertise_requested s && not s.is_loopback_only

pub record DiscoverySettings : Type 0 where
  pub lan_advertise : Bool
  pub loopback_only : Bool

-- `load`, on the engine's answer.
unfoldable pub load : Bool → DiscoverySettingsStore → DiscoverySettingsStore
load answer s = record s { stored = answer }

unfoldable pub shown : DiscoverySettingsStore → DiscoverySettings
shown s = record { lan_advertise = s.stored; loopback_only = s.is_loopback_only }

-- `update`, on what the engine has stored.
unfoldable pub update : Bool → DiscoverySettingsStore → DiscoverySettingsStore
unfolding load
update answer s = record (load answer s) { told = suc s.told }
