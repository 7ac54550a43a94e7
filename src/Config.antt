-- ===== src/Config.antt =====
-- kcp-core/src/config.rs: the tuning that the engine reads.
mod Tests
use rust_kcp.Base.{ℕ, Bool, true, false}

pub record NodeDelayConfig : Type 0 where
  pub nodelay : Bool
  pub interval : ℕ
  pub resend : ℕ
  pub no_congestion_control : Bool

pub record KcpCoreConfig : Type 0 where
  pub mtu : ℕ
  pub snd_wnd : ℕ
  pub rcv_wnd : ℕ
  pub nodelay : NodeDelayConfig
  pub max_retries : ℕ
  pub stream_mode : Bool

-- `NodeDelayConfig::custom`
unfoldable pub custom : Bool → ℕ → ℕ → Bool → NodeDelayConfig
custom n i r c = record { nodelay = n; interval = i; resend = r; no_congestion_control = c }

abbrev pub normal : NodeDelayConfig
normal = record { nodelay = false; interval = 40; resend = 0; no_congestion_control = false }

abbrev pub fast : NodeDelayConfig
fast = record { nodelay = true; interval = 8; resend = 2; no_congestion_control = false }

abbrev pub turbo : NodeDelayConfig
turbo = record { nodelay = true; interval = 4; resend = 1; no_congestion_control = true }

abbrev pub gaming : NodeDelayConfig
gaming = record { nodelay = true; interval = 3; resend = 1; no_congestion_control = true }

-- `KcpCoreConfig::default`
abbrev pub default_config : KcpCoreConfig
default_config = record {
  mtu = 1400;
  snd_wnd = 32;
  rcv_wnd = 128;
  nodelay = normal;
  max_retries = 20;
  stream_mode = false;
}
