-- ===== src/Engine/Send.antt =====
-- kcp-core/src/engine.rs: `send`, which queues a message as fragments.
pub mod Fragments
pub mod Stream
pub mod Sized
pub mod Grows
pub mod Keeps
use rust_kcp.Base.{
  ℕ, zero, suc, ◌+◌, ◌-◌, min, Bool, true, false, List, [], ◌∷◌, ◌++◌, Option, none, some, length,
  is_empty, take, drop, split_back, ltb, leb, if◌then◌else◌, u8, u32, add64, div_ceil,
}
use rust_kcp.Error.{KcpCoreResult, ok, err, buffer, too_many_fragments}
use rust_kcp.Protocol.{KcpSegment, push}
use rust_kcp.Protocol.Constants.{ikcp_wnd_rcv}
use rust_kcp.Engine.{KcpEngine, mss}

-- What merging leaves: the queue, the bytes still to queue, and how many were merged.
pub record Merged : Type 0 where
  pub queue : List KcpSegment
  pub rest : List ℕ
  pub extend : ℕ

-- `last.data` and `last.header.len` after the append
unfoldable pub extend_segment : KcpSegment → List ℕ → KcpSegment
extend_segment last bytes =
    let payload = last.payload ++ bytes in
    let h = last.header in
    record last { payload = payload; header = record h { len = u32 (length payload) } }

unfoldable pub merge_into :
    ℕ → List ℕ → List KcpSegment → Option (List KcpSegment × KcpSegment) → Merged
unfolding extend_segment
merge_into mss bytes queue none = record { queue = queue; rest = bytes; extend = 0 }
merge_into mss bytes queue (some (front, last)) =
    let extend = min (length bytes) (mss - length last.payload) in
    if ltb (length last.payload) mss
    then record {
      queue = front ++ extend_segment last (take extend bytes) ∷ [];
      rest = drop extend bytes;
      extend = extend;
    }
    else record { queue = queue; rest = bytes; extend = 0 }

-- Stream mode merges into the last queued segment.
unfoldable pub merge_last : Bool → ℕ → List ℕ → List KcpSegment → Merged
unfolding merge_into
merge_last false mss bytes queue = record { queue = queue; rest = bytes; extend = 0 }
merge_last true mss bytes queue = merge_into mss bytes queue (split_back queue)

unfoldable pub set_frg : ℕ → KcpSegment → KcpSegment
set_frg frg seg = let h = seg.header in record seg { header = record h { frg = frg } }

-- One fragment: `frg` counts the fragments that follow it, in message mode only.
unfoldable pub fragment : ℕ → ℕ → Bool → ℕ → ℕ → List ℕ → KcpSegment
unfolding set_frg
fragment now conv stream count i bytes =
    let seg = push now conv 0 bytes in if stream then seg else set_frg (u8 (count - i - 1)) seg

-- The loop `for i in 0..count`, with the rounds left as its first argument
unfoldable pub fragment_loop :
    ℕ → ℕ → ℕ → Bool → ℕ → ℕ → ℕ → ℕ → List ℕ → List KcpSegment → List KcpSegment
unfolding fragment
fragment_loop zero now conv stream count mss i offset bytes queue = queue
fragment_loop (suc rounds) now conv stream count mss i offset bytes queue =
    let size = min mss (length bytes - offset) in
    let seg = fragment now conv stream count i (take size (drop offset bytes)) in
    fragment_loop rounds now conv stream count mss (i + 1) (offset + size) bytes (queue ++ seg ∷ [])

unfoldable pub fragment_count : ℕ → ℕ → ℕ
fragment_count mss len = if leb len mss then 1 else div_ceil len mss

unfoldable pub max_frags : KcpEngine → ℕ
max_frags e = min e.config.rcv_wnd ikcp_wnd_rcv

unfoldable pub count_sent : ℕ → KcpEngine → KcpEngine
count_sent n e =
    let stats = e.stats in
    record e { stats = record stats { bytes_sent = add64 stats.bytes_sent n } }

-- The part after the merge
unfoldable pub queue_fragments : ℕ → List ℕ → KcpEngine → KcpEngine × KcpCoreResult (Unit {0})
unfolding fragment_loop fragment_count max_frags count_sent
queue_fragments now bytes e =
    let count = fragment_count (mss e) (length bytes) in
    if ltb (max_frags e) count
    then (e, err (buffer (too_many_fragments count (max_frags e))))
    else (
      count_sent (length bytes) (record e {
        snd_queue =
            fragment_loop count now e.conv e.config.stream_mode count (mss e) 0 0 bytes e.snd_queue;
      }),
      ok tt,
    )

unfoldable pub send : ℕ → List ℕ → KcpEngine → KcpEngine × KcpCoreResult (Unit {0})
send now bytes e =
    let e1 = record e { last_activity = now } in
    let m = merge_last e.config.stream_mode (mss e) bytes e.snd_queue in
    let e2 = record e1 { snd_queue = m.queue } in
    if is_empty bytes
    then (e1, ok tt)
    else if is_empty m.rest
    then (count_sent m.extend e2, ok tt)
    else queue_fragments now m.rest e2
