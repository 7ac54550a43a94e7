-- ===== src/Engine/Tests.antt =====
-- kcp-core/src/engine.rs on concrete engines: what the runs of the operations share.
mod Sending
mod Receiving
mod Acks
mod Timing
mod History
mod Transfer
use rust_kcp.Base.{ℕ, true, false, List, [], ◌∷◌, length}
use rust_kcp.Config.{KcpCoreConfig, default_config}
use rust_kcp.Protocol.{KcpSegment}
use rust_kcp.Engine.{KcpEngine, new}

-- Segments of three bytes, and a window of four
abbrev pub small : KcpCoreConfig
small = record default_config { mtu = 27; snd_wnd = 4; rcv_wnd = 4 }

abbrev pub small_stream : KcpCoreConfig
small_stream = record small { stream_mode = true }

-- `new` at time 100, with its fields computed
unfoldable pub engine : KcpCoreConfig → KcpEngine
unfolding new
engine config = new 100 7 config

-- A data segment of conversation 7
abbrev pub data_segment : ℕ → ℕ → List ℕ → KcpSegment
data_segment sn frg bytes = record {
  header = record {
    conv = 7;
    cmd = 81;
    frg = frg;
    wnd = 128;
    ts = 90;
    sn = sn;
    una = 0;
    len = length bytes;
  };
  payload = bytes;
  resendts = 0;
  rto = 200;
  fastack = 0;
  xmit = 0;
}
