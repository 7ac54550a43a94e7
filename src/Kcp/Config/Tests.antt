-- ===== src/Kcp/Config/Tests.antt =====
-- Runs of the presets and of the validation.
use rust_kcp.Base.{ℕ, ◌≤◌, ◌≡◌, refl, arith, some, List, [], ◌∷◌, All, length}
use rust_kcp.Engine.{new}
use rust_kcp.Engine.Delivery.Session.{Event, arrive, AllAdmissible, IsFaithful, run}
use rust_kcp.Engine.Calls.{Call, call_send, call_update, drained}
use rust_kcp.Engine.Tests.{data_segment}
use rust_kcp.Protocol.Wire.LittleEndian.{little_endian}
use rust_kcp.Kcp.Error.{ok, err, config, windows_zero}
use rust_kcp.Kcp.Config.{
  default_kcp_config, to_core, validate, gaming_config, file_transfer, realtime, testing, set_mtu,
  set_send_window, set_recv_window, set_max_retries, set_socket_buffer_size, turbo_mode,
}
use rust_kcp.Kcp.Config.Valid.{session_of, validated_engine}

validate-gaming_config : validate gaming_config ≡ ok tt
unfolding validate
validate-gaming_config = refl

validate-file_transfer : validate file_transfer ≡ ok tt
unfolding validate
validate-file_transfer = refl

validate-realtime : validate realtime ≡ ok tt
unfolding validate
validate-realtime = refl

-- A loss rate of one half, and one that is not a number
testing_half : (testing 1056964608).simulate_packet_loss ≡ some 1056964608
testing_half = refl

testing_nan : (testing 2143289344).simulate_packet_loss ≡ default_kcp_config.simulate_packet_loss
testing_nan = refl

closed_window :
    validate (set_recv_window 0 (set_send_window 9 (turbo_mode default_kcp_config)))
    ≡ err (config windows_zero)
unfolding validate
closed_window = refl

built : (set_socket_buffer_size 4096 (set_max_retries 3 (set_mtu 576 realtime))).max_retries ≡ 3
built = refl

-- A peer's stream of two bytes in each segment, its first segment, and a message that is sent
abbrev source : ℕ → List ℕ
source n = n ∷ 50 ∷ []

abbrev arrival : Event
arrival = arrive 101 (data_segment 0 0 (source 0) ∷ [])

abbrev calls : List Call
calls = call_send 200 (1 ∷ 2 ∷ 3 ∷ []) ∷ call_update 300 ∷ []

arrival-AllAdmissible :
    AllAdmissible little_endian source (arrival ∷ []) (session_of 100 7 realtime)
unfolding new to_core
arrival-AllAdmissible = (
  (
    (λ h. absurd (cc)),
    (
      record {
        fields_fit = record {
          conv_fits = omega arith;
          cmd_fits = omega arith;
          frg_fits = omega arith;
          wnd_fits = omega arith;
          ts_fits = omega arith;
          sn_fits = omega arith;
          una_fits = omega arith;
          len_fits = omega arith;
        };
        len_lem = refl;
      },
      tt,
    ),
    ((λ h. (0, (refl, refl), omega arith, omega arith)), tt),
  ),
  tt,
)

validated_engine_example :
    All (λ d. length d ≤ 1200) (drained little_endian calls (new 100 7 (to_core realtime)))
    × IsFaithful source (run little_endian (arrival ∷ []) (session_of 100 7 realtime))
validated_engine_example =
    validated_engine little_endian calls 100 7 realtime source (arrival ∷ []) validate-realtime
      arrival-AllAdmissible
