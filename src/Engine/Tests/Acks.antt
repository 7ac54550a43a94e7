-- ===== src/Engine/Tests/Acks.antt =====
-- Runs of what an acknowledgement does (kcp-core/src/engine.rs).
use rust_kcp.Base.{ℕ, ◌+◌, ◌-◌, ◌≤◌, ◌^◌, ◌≡◌, refl, arith, min, List, [], ◌∷◌, u32, pos}
use rust_kcp.Protocol.{KcpSegment}
use rust_kcp.Engine.{KcpEngine}
use rust_kcp.Engine.Ack.{parse_una, parse_ack, parse_fastack, shrink_buf, remove_acked}
use rust_kcp.Engine.Ack.InFlight.{Numbered, IsSending, IsFirst, Dropped, parse_una_acknowledges}
use rust_kcp.Engine.Ack.Scan.{without}
use rust_kcp.Engine.Ack.Search.{remove_acked-without, parse_ack_removes}
use rust_kcp.Engine.Rtt.{update_ack}
use rust_kcp.Engine.Rtt.Bounds.{IsEstimate, update_ack_bounds}
use rust_kcp.Protocol.Constants.{ikcp_rto_max}
use rust_kcp.Base.{max, ◌*◌}
use rust_kcp.Engine.Tests.{small, engine, data_segment}

-- Segments 4294967294, 0 and 1 are in flight, across the wrap; the one between them was acknowledged.
abbrev in_flight : List KcpSegment
in_flight = data_segment (2 ^ 32 - 2) 0 [] ∷ data_segment 0 0 [] ∷ data_segment 1 0 [] ∷ []

in_flight-Numbered : Numbered (2 ^ 32 - 2) (2 ^ 32 + 2) in_flight
in_flight-Numbered = (
  2 ^ 32 - 2,
  refl,
  omega arith,
  omega arith,
  (2 ^ 32, refl, omega arith, omega arith, (2 ^ 32 + 1, refl, omega arith, omega arith, tt)),
)

abbrev sending : KcpEngine
sending = record (engine small) { snd_una = 2 ^ 32 - 2; snd_nxt = 2; snd_buf = in_flight }

sending-IsSending : IsSending (2 ^ 32 - 2) (2 ^ 32 + 2) sending
sending-IsSending = record {
  oldest = refl;
  next = refl;
  ordered = omega arith;
  span = omega arith;
  numbered = in_flight-Numbered;
}

remove_acked-without_example : remove_acked 0 in_flight ≡ without 0 in_flight
remove_acked-without_example =
    remove_acked-without (2 ^ 32 - 2) (2 ^ 32 + 2) 0 in_flight (omega arith) (omega arith)
      in_flight-Numbered

parse_ack_removes_example :
    (parse_ack 0 sending ≡ record sending { snd_buf = without 0 in_flight })
    × IsSending (2 ^ 32 - 2) (2 ^ 32 + 2) (parse_ack 0 sending)
parse_ack_removes_example =
    parse_ack_removes (2 ^ 32 - 2) (2 ^ 32 + 2) 0 sending sending-IsSending (omega arith)

parse_una_acknowledges_example :
    let e' = shrink_buf (parse_una (u32 (2 ^ 32 + 1)) sending) in
    Dropped (2 ^ 32 - 2) (2 ^ 32 + 2) (2 ^ 32 + 1) in_flight e'.snd_buf
    × ((v : ℕ) × IsSending v (2 ^ 32 + 2) e'
        × IsFirst (2 ^ 32 + 2) v e'.snd_buf
        × (2 ^ 32 - 2 ≤ v)
        × (min (2 ^ 32 + 1) (2 ^ 32 + 2) ≤ v))
    × (e'.snd_nxt ≡ 2)
parse_una_acknowledges_example =
    parse_una_acknowledges (2 ^ 32 - 2) (2 ^ 32 + 2) (2 ^ 32 + 1) sending sending-IsSending
      (omega arith) (omega arith)

fastack_run :
    (parse_fastack 1 95 sending).snd_buf
    ≡ record (data_segment (2 ^ 32 - 2) 0 []) { fastack = 1 }
      ∷ record (data_segment 0 0 []) { fastack = 1 }
      ∷ data_segment 1 0 []
      ∷ []
unfolding parse_fastack rust_kcp.Protocol.Seq.seq_before rust_kcp.Protocol.Seq.time_diff
fastack_run = refl

-- The estimators of a new engine, and a sample of 100 ms
estimate : IsEstimate (engine small).rtt
unfolding engine
estimate = record { avg_small = omega arith; var_small = omega arith; min_small = omega arith }

update_ack_bounds_example :
    let s = (update_ack (pos 100) (engine small)).rtt in
    IsEstimate s
    × (s.rto ≡ min ikcp_rto_max (max s.min_rto (s.avg + max 40 (4 * s.var))))
    × (s.min_rto ≡ (engine small).rtt.min_rto)
    × (s.min_rto ≤ s.rto)
    × (s.rto ≤ ikcp_rto_max)
unfolding engine
update_ack_bounds_example = update_ack_bounds (pos 100) (engine small) estimate (omega arith)

first_sample : (update_ack (pos 100) (engine small)).rtt.rto ≡ 300
unfolding update_ack engine
first_sample = refl
