-- ===== src/Engine/Transmit.antt =====
-- kcp-core/src/engine.rs: `mark_segments_for_send` and `flush_data_segments`.
pub mod Marking
use rust_kcp.Base.{
  ℕ, ◌+◌, ◌/◌, max, Bool, true, false, List, [], ◌∷◌, Option, none, some, get_elem?, ltb, leb, ◌==◌,
  ◌&&◌, ◌||◌, if◌then◌else◌, u16, u32_max, add32, add64, is_neg,
}
use rust_kcp.Config.{NodeDelayConfig}
use rust_kcp.Error.{KcpCoreResult, ok, err, connection_lost}
use rust_kcp.Protocol.{KcpSegment}
use rust_kcp.Protocol.Seq.{time_diff}
use rust_kcp.Protocol.Wire.{ByteCodec}
use rust_kcp.Protocol.Constants.{ikcp_fastack_limit}
use rust_kcp.Engine.{KcpEngine, wnd_unused}
use rust_kcp.Engine.Output.{output_segment}
use rust_kcp.Engine.Congestion.{update_congestion_on_loss}

-- Why a segment is sent: for the first time, since its timer ran out, or since later segments were
-- acknowledged
pub data Reason : Type 0 where
  first timeout fast : Reason

unfoldable pub reason : ℕ → ℕ → KcpSegment → Option Reason
reason current resend seg =
    if seg.xmit == 0
    then some first
    else if is_neg (time_diff current seg.resendts)
    then (if leb resend seg.fastack && (leb seg.xmit ikcp_fastack_limit || ikcp_fastack_limit == 0)
        then some fast
        else none)
    else some timeout

-- What the marking reads of the engine
pub record MarkContext : Type 0 where
  pub current : ℕ
  pub resend : ℕ
  pub rtomin : ℕ
  pub rto : ℕ
  pub nodelay : NodeDelayConfig
  pub wnd : ℕ
  pub una : ℕ

-- The timeout after a loss
unfoldable pub backed_off_rto : MarkContext → ℕ → ℕ
backed_off_rto c rto =
    if c.nodelay.nodelay
    then add32 rto ((if c.nodelay.no_congestion_control then c.rto else rto) / 2)
    else add32 rto (max rto c.nodelay.interval)

unfoldable pub arm : MarkContext → Reason → KcpSegment → KcpSegment
unfolding backed_off_rto
arm c first seg = record seg {
  xmit = 1;
  rto = c.rto;
  resendts = add32 (add32 c.current c.rto) c.rtomin;
}
arm c timeout seg = record seg {
  xmit = add32 seg.xmit 1;
  rto = backed_off_rto c seg.rto;
  resendts = add32 c.current (backed_off_rto c seg.rto);
}
arm c fast seg = record seg {
  xmit = add32 seg.xmit 1;
  fastack = 0;
  resendts = add32 c.current seg.rto;
}

-- `if needsend`
unfoldable pub stamp : MarkContext → KcpSegment → KcpSegment
stamp c seg =
    let h = seg.header in
    record seg { header = record h { ts = c.current; wnd = c.wnd; una = c.una } }

-- The segments after the scan, the indices to send, and how many timeouts and fast resends there
-- were; `lost` and `change` say whether there was one.
pub record Marked : Type 0 where
  pub segments : List KcpSegment
  pub indices : List ℕ
  pub timeouts : ℕ
  pub fasts : ℕ

abbrev pub is_timeout : Reason → ℕ
is_timeout first = 0
is_timeout timeout = 1
is_timeout fast = 0

abbrev pub is_fast : Reason → ℕ
is_fast first = 0
is_fast timeout = 0
is_fast fast = 1

unfoldable pub mark_one : MarkContext → ℕ → KcpSegment → Option Reason → Marked → Marked
unfolding arm stamp
mark_one c i seg none m = record m { segments = seg ∷ m.segments }
mark_one c i seg (some r) m = record {
  segments = stamp c (arm c r seg) ∷ m.segments;
  indices = i ∷ m.indices;
  timeouts = is_timeout r + m.timeouts;
  fasts = is_fast r + m.fasts;
}

unfoldable pub mark_loop : MarkContext → ℕ → List KcpSegment → Marked
unfolding reason mark_one
mark_loop c i [] = record { segments = []; indices = []; timeouts = 0; fasts = 0 }
mark_loop c i (seg ∷ segs) =
    mark_one c i seg (reason c.current c.resend seg) (mark_loop c (i + 1) segs)

unfoldable pub mark_context : ℕ → ℕ → ℕ → KcpEngine → MarkContext
mark_context current resend rtomin e = record {
  current = current;
  resend = resend;
  rtomin = rtomin;
  rto = e.rtt.rto;
  nodelay = e.config.nodelay;
  wnd = u16 (wnd_unused e);
  una = e.rcv_nxt;
}

-- The engine after the scan, beside what the scan returns
unfoldable pub mark_segments_for_send : ℕ → ℕ → ℕ → KcpEngine → KcpEngine × Marked
unfolding mark_loop mark_context
mark_segments_for_send current resend rtomin e =
    let m = mark_loop (mark_context current resend rtomin e) 0 e.snd_buf in
    let stats = e.stats in
    (
      record e {
        snd_buf = m.segments;
        stats = record stats {
          retransmissions = add64 stats.retransmissions m.timeouts;
          fast_retransmissions = add64 stats.fast_retransmissions m.fasts;
        };
      },
      m,
    )

-- The sending loop. It stops behind the first segment that was sent too often. An index out of
-- range would panic; `mark_loop` makes none.
unfoldable pub send_marked : ByteCodec → List ℕ → KcpEngine → KcpEngine × KcpCoreResult (Unit {0})
send_marked codec [] e = (e, ok tt)
send_marked codec (i ∷ is) e = elim (get_elem? e.snd_buf i) [
  | none ↦ (e, ok tt)
  | some seg ↦ elim (leb e.dead_link seg.xmit) [
    | true ↦ (output_segment codec seg e, err connection_lost)
    | false ↦ send_marked codec is (output_segment codec seg e)
  ]
]

unfoldable pub resend_threshold : KcpEngine → ℕ
resend_threshold e = if ltb 0 e.config.nodelay.resend then e.config.nodelay.resend else u32_max

unfoldable pub first_delay : KcpEngine → ℕ
first_delay e = if e.config.nodelay.nodelay then 0 else e.rtt.rto / 8

abbrev pub after_sending :
    Bool → Bool → ℕ → KcpEngine × KcpCoreResult (Unit {0}) → KcpEngine × KcpCoreResult (Unit {0})
after_sending lost change resend (e, ok u) = (update_congestion_on_loss lost change resend e, ok u)
after_sending lost change resend (e, err x) = (e, err x)

unfoldable pub flush_data_segments :
    ByteCodec → ℕ → KcpEngine → KcpEngine × KcpCoreResult (Unit {0})
unfolding mark_segments_for_send send_marked resend_threshold first_delay
flush_data_segments codec current e =
    let (e', m) = mark_segments_for_send current (resend_threshold e) (first_delay e) e in
    after_sending (ltb 0 m.timeouts) (ltb 0 m.fasts) (resend_threshold e)
      (send_marked codec m.indices e')
