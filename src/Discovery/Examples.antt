-- ===== src/Discovery/Examples.antt =====
-- Addresses for server/src/discovery/settings.ts.
use mcp_zeromem.Common.{◌≡◌, refl, true, false, some}
use mcp_zeromem.Common.Text.{is_space}
use mcp_zeromem.Discovery.{is_loopback_host, create, update, is_advertise_wanted}

bracketed : is_loopback_host (λ s. s) (λ s. false) (λ s. true) " [::1] " ≡ true
unfolding is_loopback_host is_space
bracketed = refl

elsewhere : is_loopback_host (λ s. s) (λ s. true) (λ s. false) "10.127.0.1" ≡ false
unfolding is_loopback_host is_space
elsewhere = refl

wanted :
    is_advertise_wanted (update true (create (λ s. s) (λ s. true) (λ s. false) (some "0.0.0.0")))
    ≡ true
unfolding is_advertise_wanted update create is_space
wanted = refl
