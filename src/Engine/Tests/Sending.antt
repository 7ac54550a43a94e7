-- ===== src/Engine/Tests/Sending.antt =====
-- Runs of `send`, `move_to_send_buf` and the packing (kcp-core/src/engine.rs).
use rust_kcp.Base.{
  ℕ, ◌+◌, ◌-◌, min, ◌≤◌, ◌<◌, ◌≡◌, ◌≢◌, refl, arith, true, List, [], ◌∷◌, ◌++◌, All, length, take,
  ◌⊎◌,
}
use rust_kcp.Error.{ok, err, buffer, too_many_fragments}
use rust_kcp.Protocol.Wire.{encode}
use rust_kcp.Protocol.Wire.LittleEndian.{little_endian}
use rust_kcp.Engine.{KcpEngine, new, mss, send_queue_len, has_unsent_data}
use rust_kcp.Engine.Payloads.{payloads, IsChain}
use rust_kcp.Engine.Send.{send, fragment_count, max_frags, merge_last, queue_fragments}
use rust_kcp.Engine.Send.Fragments.{message_fragments, Fits, send_message}
use rust_kcp.Engine.Send.Stream.{send_bytes, send_stream_partial}
use rust_kcp.Engine.SendBuf.{move_to_send_buf, send_window}
use rust_kcp.Engine.SendBuf.Window.{Launches, move_to_send_buf-Launches}
use rust_kcp.Engine.Ack.InFlight.{IsSending}
use rust_kcp.Engine.Output.{output_segment}
use rust_kcp.Engine.Calls.{Call, call_send, call_update, call_recv, drained, drained_bounds}
use rust_kcp.Engine.Output.Packing.{wire_bytes, wire_bytes-output_segment}
use rust_kcp.Engine.Tests.{small, small_stream, engine, data_segment}

abbrev seven : List ℕ
seven = 1 ∷ 2 ∷ 3 ∷ 4 ∷ 5 ∷ 6 ∷ 7 ∷ []

send-seven : (send 200 seven (engine small)).1 ≡ ok tt
unfolding send merge_last engine queue_fragments mss
send-seven = refl

send_message_example :
    let e = engine small in
    let count = fragment_count (mss e) 7 in
    let frs = message_fragments 200 seven e in
    let (e', r) = send 200 seven e in
    (count ≤ min e.config.rcv_wnd 128
      → (r ≡ ok tt)
        × (e'.snd_queue ≡ frs)
        × (payloads frs ≡ seven)
        × IsChain count frs
        × All (Fits (mss e)) frs)
    × (min e.config.rcv_wnd 128 < count
        → (r ≡ err (buffer (too_many_fragments count (min e.config.rcv_wnd 128))))
          × (e'.snd_queue ≡ []))
unfolding engine
send_message_example =
    send_message 200 seven (engine small) refl (λ h. absurd (cc)) (omega arith) (omega arith)

-- Stream mode, behind two bytes that are queued
abbrev part_full : KcpEngine
part_full = record (engine small_stream) { snd_queue = data_segment 0 0 (8 ∷ 9 ∷ []) ∷ [] }

send_bytes_example :
    let e = part_full in
    let m = merge_last true (mss e) seven e.snd_queue in
    let count = fragment_count (mss e) (length m.rest) in
    let (e', r) = send 200 seven e in
    ((m.rest ≡ []) ⊎ (count ≤ max_frags e) → (r ≡ ok tt) × (payloads e'.snd_queue ≡ 8 ∷ 9 ∷ seven))
    × (m.rest ≢ []
        → max_frags e < count
        → (r ≡ err (buffer (too_many_fragments count (max_frags e))))
          × (payloads e'.snd_queue ++ m.rest ≡ 8 ∷ 9 ∷ seven))
unfolding engine
send_bytes_example = send_bytes 200 seven part_full (λ h. absurd (cc)) (omega arith) (omega arith)

-- Fourteen bytes: one fills the segment that is queued, and the window holds twelve more.
abbrev fourteen : List ℕ
fourteen = seven ++ seven

mss-part_full : mss part_full ≡ 3
unfolding mss engine
mss-part_full = refl

max_frags-part_full : max_frags part_full ≡ 4
unfolding max_frags engine
max_frags-part_full = refl

send_stream_partial_example :
    let room = mss part_full - 2 in
    let count = fragment_count (mss part_full) (14 - room) in
    let (e', r) = send 200 fourteen part_full in
    (r ≡ err (buffer (too_many_fragments count (max_frags part_full))))
    × (payloads e'.snd_queue ≡ 8 ∷ 9 ∷ take room fourteen)
    × (0 < length (take room fourteen))
unfolding engine mss
send_stream_partial_example =
    send_stream_partial 200 fourteen part_full [] (data_segment 0 0 (8 ∷ 9 ∷ [])) refl refl
      (omega (arith, mss-part_full)) (omega (arith, mss-part_full, max_frags-part_full))

abbrev queued : KcpEngine
queued = record (engine small) {
  snd_una = 5;
  snd_nxt = 6;
  snd_buf = data_segment 5 0 (9 ∷ []) ∷ [];
  snd_queue = data_segment 0 1 (1 ∷ []) ∷ data_segment 0 0 (2 ∷ []) ∷ [];
}

queued-IsSending : IsSending 5 6 queued
queued-IsSending = record {
  oldest = refl;
  next = refl;
  ordered = omega arith;
  span = omega arith;
  numbered = (5, refl, omega arith, omega arith, tt);
}

send_window-queued : send_window queued ≡ 4
unfolding send_window engine
send_window-queued = refl

move_to_send_buf-Launches_example :
    let e' = move_to_send_buf 300 queued in
    (l : Launches 300 queued
      (5 + send_window queued)
      6
      queued.snd_queue
      queued.snd_buf
      (record { queue = e'.snd_queue; buf = e'.snd_buf; nxt = e'.snd_nxt }))
    × IsSending 5 (6 + length l.front) e'
    × (payloads e'.snd_buf ++ payloads e'.snd_queue ≡ 9 ∷ 1 ∷ 2 ∷ [])
move_to_send_buf-Launches_example =
    move_to_send_buf-Launches 300 5 6 queued queued-IsSending (omega (arith, send_window-queued))

has_unsent_queued : has_unsent_data queued ≡ true
unfolding has_unsent_data
has_unsent_queued = refl

send_queue_len_queued : send_queue_len queued ≡ 2
unfolding send_queue_len
send_queue_len_queued = refl

-- A datagram of 25 bytes waits, and the MTU is 27.
abbrev pending : KcpEngine
pending = record (engine small) { out_buf = encode little_endian (data_segment 5 0 (9 ∷ [])) }

wire_bytes-output_segment_example :
    wire_bytes (output_segment little_endian (data_segment 6 0 (1 ∷ [])) pending)
    ≡ wire_bytes pending ++ encode little_endian (data_segment 6 0 (1 ∷ []))
wire_bytes-output_segment_example =
    wire_bytes-output_segment little_endian (data_segment 6 0 (1 ∷ [])) pending

-- Seven bytes go out in three datagrams of at most 27 bytes.
abbrev calls : List Call
calls = call_send 200 seven ∷ call_update 300 ∷ call_recv ∷ []

drained_bounds_example : All (λ d. length d ≤ 27) (drained little_endian calls (new 100 7 small))
drained_bounds_example = drained_bounds little_endian calls 100 7 small (omega arith)
