-- ===== src/Engine.antt =====
-- kcp-core/src/engine.rs: the state of the engine, `new` and the accessors. The operations are in
-- the modules below, each with its proofs beneath it.
pub mod Payloads
pub mod Output
pub mod Congestion
pub mod Rtt
pub mod Send
pub mod Recv
pub mod Ack
pub mod Input
pub mod Probe
pub mod SendBuf
pub mod Transmit
pub mod Flush
pub mod Delivery
pub mod Calls
pub mod Sending
pub mod Tests
use rust_kcp.Base.{ℕ, ◌-◌, ◌+◌, max, Bool, true, false, List, [], ◌∷◌, Option, length, is_empty}
use rust_kcp.Base.{ltb, leb, ◌==◌, ◌||◌, not, if◌then◌else◌, sub32, add64, u32}
use rust_kcp.Config.{KcpCoreConfig}
use rust_kcp.Error.{KcpCoreResult, ok}
use rust_kcp.Protocol.{KcpSegment, KcpStats, default_stats}
use rust_kcp.Protocol.Constants.{
  ikcp_overhead, ikcp_rto_ndl, ikcp_rto_min, ikcp_rto_def, ikcp_wnd_rcv, ikcp_thresh_init,
}

pub record RttState : Type 0 where
  pub avg : ℕ
  pub var : ℕ
  pub rto : ℕ
  pub min_rto : ℕ

pub record WindowState : Type 0 where
  pub snd : ℕ
  pub rcv : ℕ
  pub rmt : ℕ
  pub cwnd : ℕ
  pub ssthresh : ℕ
  pub incr : ℕ

pub record ProbeState : Type 0 where
  pub flags : ℕ
  pub wait : ℕ
  pub ts : ℕ

-- A queue's front is the head of its list, and `rcv_buf` is a `BTreeMap`.
pub record KcpEngine : Type 0 where
  pub conv : ℕ
  pub config : KcpCoreConfig
  pub snd_una : ℕ
  pub snd_nxt : ℕ
  pub rcv_nxt : ℕ
  pub rtt : RttState
  pub wnd : WindowState
  pub probe : ProbeState
  pub snd_queue : List KcpSegment
  pub rcv_queue : List KcpSegment
  pub snd_buf : List KcpSegment
  pub rcv_buf : List (ℕ × KcpSegment)
  pub ack_list : List (ℕ × ℕ)
  pub output_queue : List (List ℕ)
  pub out_buf : List ℕ
  pub stats : KcpStats
  pub last_update : ℕ
  pub last_activity : ℕ
  pub dead_link : ℕ

-- `KcpEngine::new`, at the clock reading `now`
unfoldable pub new : ℕ → ℕ → KcpCoreConfig → KcpEngine
new now conv given =
    let mtu = max given.mtu (ikcp_overhead + 1) in
    let config = record given { mtu = mtu } in
    record {
      conv = conv;
      config = config;
      snd_una = 0;
      snd_nxt = 0;
      rcv_nxt = 0;
      rtt = record {
        avg = 0;
        var = 0;
        rto = ikcp_rto_def;
        min_rto = if config.nodelay.nodelay then ikcp_rto_ndl else ikcp_rto_min;
      };
      wnd = record {
        snd = config.snd_wnd;
        rcv = config.rcv_wnd;
        rmt = ikcp_wnd_rcv;
        cwnd = config.snd_wnd;
        ssthresh = ikcp_thresh_init;
        incr = 0;
      };
      probe = record { flags = 0; wait = 0; ts = 0 };
      snd_queue = [];
      rcv_queue = [];
      snd_buf = [];
      rcv_buf = [];
      ack_list = [];
      output_queue = [];
      out_buf = [];
      stats = default_stats;
      last_update = now;
      last_activity = now;
      dead_link = config.max_retries;
    }

-- `start` only logs.
unfoldable pub start : KcpEngine → KcpEngine × KcpCoreResult (Unit {0})
start e = (e, ok tt)

unfoldable pub set_conv : ℕ → KcpEngine → KcpEngine
set_conv conv e = record e { conv = conv }

unfoldable pub drain_output : KcpEngine → KcpEngine × List (List ℕ)
drain_output e = (record e { output_queue = [] }, e.output_queue)

unfoldable pub mss : KcpEngine → ℕ
mss e = sub32 e.config.mtu ikcp_overhead

unfoldable pub wnd_unused : KcpEngine → ℕ
wnd_unused e =
    if ltb (length e.rcv_queue) e.wnd.rcv then sub32 e.wnd.rcv (u32 (length e.rcv_queue)) else 0

unfoldable pub send_queue_len : KcpEngine → ℕ
send_queue_len e = length e.snd_queue

unfoldable pub has_unsent_data : KcpEngine → Bool
has_unsent_data e = not (is_empty e.snd_queue) || not (is_empty e.snd_buf)

unfoldable pub any_dead : ℕ → List KcpSegment → Bool
any_dead dead_link [] = false
any_dead dead_link (seg ∷ segs) = leb dead_link seg.xmit || any_dead dead_link segs

unfoldable pub is_dead : KcpEngine → Bool
unfolding any_dead
is_dead e = any_dead e.dead_link e.snd_buf

-- `saturating_sub`
unfoldable pub idle_ms : ℕ → KcpEngine → ℕ
idle_ms now e = now - e.last_activity
