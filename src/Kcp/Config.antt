-- ===== src/Kcp/Config.antt =====
-- kcp/config.rs: the configuration of a session, its builder, presets and validation. A `Duration`
-- is its milliseconds; an `f32` is its bit pattern.
pub mod Valid
mod Tests
use rust_kcp.Base.{ℕ, true, false, Bool, Option, none, some, ltb, leb, ◌==◌, ◌||◌, if◌then◌else◌}
use rust_kcp.Config.{NodeDelayConfig, KcpCoreConfig, normal, fast, turbo}
use rust_kcp.Config as Core
use rust_kcp.Kcp.Error.{
  Result, ok, err, config, mtu_range, windows_zero, windows_large, interval_zero, retries_zero,
}

pub record KcpConfig : Type 0 where
  pub mtu : ℕ
  pub snd_wnd : ℕ
  pub rcv_wnd : ℕ
  pub nodelay : NodeDelayConfig
  pub max_retries : ℕ
  pub stream_mode : Bool
  pub connect_timeout : ℕ
  pub keep_alive : Option ℕ
  pub socket_buffer_size : Option ℕ
  pub simulate_packet_loss : Option ℕ
  pub max_pending_connections : ℕ
  pub cleanup_interval : ℕ

-- `KcpConfig::default`, which `new` is too
abbrev pub default_kcp_config : KcpConfig
default_kcp_config = record {
  mtu = 1400;
  snd_wnd = 32;
  rcv_wnd = 128;
  nodelay = normal;
  max_retries = 20;
  stream_mode = false;
  connect_timeout = 10000;
  keep_alive = some 30000;
  socket_buffer_size = none;
  simulate_packet_loss = none;
  max_pending_connections = 256;
  cleanup_interval = 30000;
}

-- `From<KcpConfig>`
unfoldable pub to_core : KcpConfig → KcpCoreConfig
to_core c = record {
  mtu = c.mtu;
  snd_wnd = c.snd_wnd;
  rcv_wnd = c.rcv_wnd;
  nodelay = c.nodelay;
  max_retries = c.max_retries;
  stream_mode = c.stream_mode;
}

-- The builder methods, each named after what it sets
abbrev pub set_mtu : ℕ → KcpConfig → KcpConfig
set_mtu mtu c = record c { mtu = mtu }

abbrev pub set_send_window : ℕ → KcpConfig → KcpConfig
set_send_window wnd c = record c { snd_wnd = wnd }

abbrev pub set_recv_window : ℕ → KcpConfig → KcpConfig
set_recv_window wnd c = record c { rcv_wnd = wnd }

abbrev pub set_window_size : ℕ → ℕ → KcpConfig → KcpConfig
set_window_size snd_wnd rcv_wnd c = record c { snd_wnd = snd_wnd; rcv_wnd = rcv_wnd }

abbrev pub set_nodelay_config : NodeDelayConfig → KcpConfig → KcpConfig
set_nodelay_config nodelay c = record c { nodelay = nodelay }

abbrev pub normal_mode : KcpConfig → KcpConfig
normal_mode c = set_nodelay_config normal c

abbrev pub fast_mode : KcpConfig → KcpConfig
fast_mode c = set_nodelay_config fast c

abbrev pub turbo_mode : KcpConfig → KcpConfig
turbo_mode c = set_nodelay_config turbo c

abbrev pub set_max_retries : ℕ → KcpConfig → KcpConfig
set_max_retries retries c = record c { max_retries = retries }

abbrev pub set_stream_mode : Bool → KcpConfig → KcpConfig
set_stream_mode enabled c = record c { stream_mode = enabled }

abbrev pub set_connect_timeout : ℕ → KcpConfig → KcpConfig
set_connect_timeout timeout c = record c { connect_timeout = timeout }

abbrev pub set_keep_alive : Option ℕ → KcpConfig → KcpConfig
set_keep_alive interval c = record c { keep_alive = interval }

abbrev pub set_socket_buffer_size : ℕ → KcpConfig → KcpConfig
set_socket_buffer_size size c = record c { socket_buffer_size = some size }

-- `(0.0..=1.0).contains`: the bit patterns of the numbers from 0 to 1 are those up to that of 1.0,
-- and that of -0.0.
abbrev pub in_unit : ℕ → Bool
in_unit bits = leb bits 1065353216 || (bits == 2147483648)

abbrev pub set_simulate_packet_loss : ℕ → KcpConfig → KcpConfig
set_simulate_packet_loss loss_rate c =
    if in_unit loss_rate then record c { simulate_packet_loss = some loss_rate } else c

unfoldable pub validate : KcpConfig → Result (Unit {0})
validate c =
    if ltb c.mtu 64 || ltb 65535 c.mtu
    then err (config mtu_range)
    else if (c.snd_wnd == 0) || (c.rcv_wnd == 0)
    then err (config windows_zero)
    else if ltb 65535 c.snd_wnd || ltb 65535 c.rcv_wnd
    then err (config windows_large)
    else if c.nodelay.interval == 0
    then err (config interval_zero)
    else if c.max_retries == 0
    then err (config retries_zero)
    else ok tt

abbrev pub gaming_config : KcpConfig
gaming_config = set_keep_alive (some 10000) (
    set_connect_timeout 3000
      (set_mtu 1200 (set_window_size 64 128 (set_nodelay_config Core.gaming default_kcp_config))))

abbrev pub file_transfer : KcpConfig
file_transfer = set_keep_alive (some 60000) (
    set_connect_timeout 30000 (
      set_stream_mode true
        (set_mtu 1400 (set_window_size 256 256 (normal_mode default_kcp_config)))))

abbrev pub realtime : KcpConfig
realtime =
    set_keep_alive (some 10000) (
      set_connect_timeout 3000
        (set_mtu 1200 (set_window_size 64 64 (fast_mode default_kcp_config))))

abbrev pub testing : ℕ → KcpConfig
testing packet_loss =
    set_connect_timeout 5000 (set_simulate_packet_loss packet_loss (fast_mode default_kcp_config))
