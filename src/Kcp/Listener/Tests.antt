-- ===== src/Kcp/Listener/Tests.antt =====
-- A listener (kcp/listener.rs) with one peer, address 5, whose first packet has conversation id 0.
use rust_kcp.Base.{
  ℕ, ◌≤◌, ◌≡◌, ◌⊎◌, refl, arith, Bool, true, false, List, [], ◌∷◌, length, Option, none, some,
}
use rust_kcp.Base.HashMap.{find, has}
use rust_kcp.Protocol.{KcpHeader, random_conv_id}
use rust_kcp.Protocol.Wire.LittleEndian.{little_endian}
use rust_kcp.Engine.Tests.{data_segment}
use rust_kcp.Engine.Input.Parse.{datagram}
use rust_kcp.Kcp.Error.{ok, err, connection, refused}
use rust_kcp.Kcp.Listener.{
  IncomingConnection, new_state, screen, server_conv, new_incoming, add_pending,
  handle_incoming_packet, accept, begin_accept, register,
}
use rust_kcp.Kcp.Listener.Interleaving.{
  System, Reach, begin, next, look, add, sent, take, succeed, opened_listener, registered,
}
use rust_kcp.Kcp.Listener.Bounds.{IsBounded, Reach-IsBounded}
use rust_kcp.Kcp.Listener.Routing.{IsEntering, active_peer_routed}
use rust_kcp.Kcp.Listener.Outcomes.{
  AllOrNothing, handle_incoming_packet_lem, Accepted, accept-Accepted,
}

abbrev header : KcpHeader
header = record { conv = 0; cmd = 81; frg = 0; wnd = 128; ts = 90; sn = 0; una = 0; len = 1 }

abbrev hello : List ℕ
hello = datagram little_endian (record (data_segment 0 0 (9 ∷ [])) { header = header } ∷ [])

abbrev incoming : IncomingConnection
incoming = record {
  peer_addr = 5;
  conv = 77;
  client_conv = 0;
  handshake_data = hello;
  created_at = 1000;
}

hello_screened : screen little_endian 2 5 hello new_state ≡ some header
unfolding screen rust_kcp.Protocol.Wire.decode_header rust_kcp.Protocol.Wire.encode
    rust_kcp.Protocol.Wire.encode_header has
hello_screened = refl

-- The first draw is 0, which `random_conv_id` skips.
drawn_conv : server_conv (0 ∷ 77 ∷ []) 0 ≡ some 77
unfolding server_conv random_conv_id
drawn_conv = refl

abbrev waiting : System
waiting = record opened_listener { conn = add_pending incoming new_state; queued = incoming ∷ [] }

waiting-Reach : Reach little_endian 2 waiting
unfolding new_incoming find
waiting-Reach =
    next
      (next (next begin (look 5 hello 1000 (0 ∷ 77 ∷ []) refl refl hello_screened drawn_conv))
        (add refl))
      (sent refl)

abbrev entering : System
entering = record waiting {
  conn = register 5 (record (add_pending incoming new_state) { accepting = (5, tt) ∷ [] });
  accepting = registered 5 31;
}

took :
    begin_accept incoming (add_pending incoming new_state)
    ≡ some (record (add_pending incoming new_state) { accepting = (5, tt) ∷ [] })
unfolding begin_accept has add_pending rust_kcp.Base.HashMap.put
took = refl

entering-Reach : Reach little_endian 2 entering
entering-Reach = next (next waiting-Reach (take 0 refl refl took)) (succeed 31 refl)

Reach-IsBounded_example : IsBounded 2 entering
Reach-IsBounded_example = Reach-IsBounded little_endian 2 entering-Reach

active_peer_routed_example : (has 5 entering.streams ≡ true) ⊎ IsEntering 5 entering.accepting
unfolding has register rust_kcp.Base.HashMap.put
active_peer_routed_example = active_peer_routed little_endian 2 5 entering-Reach refl

handle_incoming_packet_lem_example :
    AllOrNothing little_endian 2 5 hello new_state
      (0 ∷ 77 ∷ [])
      1000
      true
      (handle_incoming_packet little_endian 2 (0 ∷ 77 ∷ []) 1000 5 hello true new_state)
handle_incoming_packet_lem_example =
    handle_incoming_packet_lem little_endian 2 5 hello new_state (0 ∷ 77 ∷ []) 1000 true

hello_handled :
    handle_incoming_packet little_endian 2 (0 ∷ 77 ∷ []) 1000 5 hello true new_state
    ≡ (add_pending incoming new_state, some incoming)
unfolding handle_incoming_packet rust_kcp.Protocol.Wire.decode_header rust_kcp.Protocol.Wire.encode
    rust_kcp.Protocol.Wire.encode_header has random_conv_id
hello_handled = refl

-- The creation of the first stream fails, and the second peer gets one.
abbrev second : IncomingConnection
second = record incoming { peer_addr = 6 }

accept-Accepted_example :
    Accepted
      ([], add_pending second (add_pending incoming new_state))
      (accept
        ((incoming, err (connection refused)) ∷ (second, ok 31) ∷ [])
        ([], add_pending second (add_pending incoming new_state)))
accept-Accepted_example =
    accept-Accepted ((incoming, err (connection refused)) ∷ (second, ok 31) ∷ []) []
      (add_pending second (add_pending incoming new_state))
