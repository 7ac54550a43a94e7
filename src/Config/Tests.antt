-- ===== src/Config/Tests.antt =====
-- Runs of the configuration presets.
use rust_kcp.Base.{◌≡◌, refl, true}
use rust_kcp.Config.{custom, gaming}

custom_is_gaming : custom true 3 1 true ≡ gaming
unfolding custom
custom_is_gaming = refl
