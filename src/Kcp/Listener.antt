-- ===== src/Kcp/Listener.antt =====
-- kcp/listener.rs: the connection tables and what the two tasks of a listener do with them. A peer
-- address is a number, a stream's handle the number of its input channel. What the channels, the
-- clock, the random numbers and the creation of a stream gave are arguments.
pub mod Interleaving
pub mod Bounds
pub mod Routing
pub mod Outcomes
mod Tests
use rust_kcp.Base.{
  ℕ, ◌-◌, Bool, true, false, List, [], ◌∷◌, Option, none, some, length, ltb, leb, ◌==◌, ◌&&◌, ◌||◌,
  not, if◌then◌else◌,
}
use rust_kcp.Base.HashMap.{find, has, put, remove, remove_all, retain}
use rust_kcp.Protocol.{KcpHeader, header_size, random_conv_id}
use rust_kcp.Protocol.Constants.{ikcp_cmd_push, ikcp_cmd_ack, ikcp_cmd_wask, ikcp_cmd_wins}
use rust_kcp.Protocol.Wire.{ByteCodec, decode_header}
use rust_kcp.Kcp.Error.{Result, ok, err, connection, closed}

pub record IncomingConnection : Type 0 where
  pub peer_addr : ℕ
  pub conv : ℕ
  pub client_conv : ℕ
  pub handshake_data : List ℕ
  pub created_at : ℕ

pub record ConnectionState : Type 0 where
  pub pending : List (ℕ × IncomingConnection)
  pub accepting : List (ℕ × Unit {0})
  pub active : List (ℕ × Unit {0})

abbrev pub new_state : ConnectionState
new_state = record { pending = []; accepting = []; active = [] }

abbrev pub pending_count : ConnectionState → ℕ
pending_count st = length st.pending

unfoldable pub remove_active_connection : ℕ → ConnectionState → ConnectionState
remove_active_connection peer st = record st { active = remove peer st.active }

-- The `matches!` of `handle_incoming_packet`
unfoldable pub is_kcp_cmd : ℕ → Bool
is_kcp_cmd cmd =
    (cmd == ikcp_cmd_push)
    || (cmd == ikcp_cmd_ack)
    || (cmd == ikcp_cmd_wask)
    || (cmd == ikcp_cmd_wins)

-- A peer that may be added
unfoldable pub is_new_peer : ℕ → ℕ → ConnectionState → Bool
is_new_peer max_pending peer st =
    not (has peer st.active)
    && not (has peer st.accepting)
    && not (has peer st.pending)
    && ltb (length st.pending) max_pending

-- The checks of `handle_incoming_packet`, up to where it lets go of the lock: the header of a
-- packet that goes on.
unfoldable pub screen : ByteCodec → ℕ → ℕ → List ℕ → ConnectionState → Option KcpHeader
unfolding is_kcp_cmd is_new_peer
screen codec max_pending peer bytes st = elim (decode_header codec bytes) [
  | none ↦ none
  | some (h, rest) ↦
      if leb header_size (length bytes) && is_kcp_cmd h.cmd && is_new_peer max_pending peer st
      then some h
      else none
]

-- `none` when `random_conv_id` does not return on these draws
unfoldable pub server_conv : List ℕ → ℕ → Option ℕ
server_conv draws client_conv = if client_conv == 0 then random_conv_id draws else some client_conv

unfoldable pub new_incoming : ℕ → ℕ → List ℕ → ℕ → ℕ → IncomingConnection
new_incoming now peer bytes client_conv conv = record {
  peer_addr = peer;
  conv = conv;
  client_conv = client_conv;
  handshake_data = bytes;
  created_at = now;
}

unfoldable pub add_pending : IncomingConnection → ConnectionState → ConnectionState
add_pending inc st = record st { pending = put inc.peer_addr inc st.pending }

unfoldable pub drop_pending : ℕ → ConnectionState → ConnectionState
drop_pending peer st = record st { pending = remove peer st.pending }

-- `handle_incoming_packet` without another task between its steps: the tables, and what it queues
-- for `accept` when the queue has room. It returns `Ok` on every path.
unfoldable pub handle_incoming_packet :
    ByteCodec
    → ℕ
    → List ℕ
    → ℕ
    → ℕ
    → List ℕ
    → Bool
    → ConnectionState
    → ConnectionState × Option IncomingConnection
unfolding screen server_conv new_incoming add_pending drop_pending
handle_incoming_packet codec max_pending draws now peer bytes room st =
    elim (screen codec max_pending peer bytes st) [
      | none ↦ (st, none)
      | some h ↦ elim (server_conv draws h.conv) [
        | none ↦ (st, none)
        | some conv ↦
            let inc = new_incoming now peer bytes h.conv conv in
            let st' = add_pending inc st in
            if room then (st', some inc) else (drop_pending peer st', none)
      ]
    ]

-- What the listening task does with a datagram: the input channel that it goes to, or the tables
-- after `handle_incoming_packet`
unfoldable pub on_datagram :
    ByteCodec
    → ℕ
    → List ℕ
    → ℕ
    → ℕ
    → List ℕ
    → Bool
    → List (ℕ × ℕ)
    → ConnectionState
    → Option ℕ × (ConnectionState × Option IncomingConnection)
unfolding handle_incoming_packet
on_datagram codec max_pending draws now peer bytes room streams st = elim (find peer streams) [
  | some input_tx ↦ (some input_tx, (st, none))
  | none ↦ (none, handle_incoming_packet codec max_pending draws now peer bytes room st)
]

-- `accept`, for a connection from the queue: `none` for a peer that is active
unfoldable pub begin_accept : IncomingConnection → ConnectionState → Option ConnectionState
begin_accept inc st =
    if has inc.peer_addr st.active
    then none
    else some (record st { accepting = put inc.peer_addr tt st.accepting })

-- The locked part of `create_stream_for_connection`
unfoldable pub register : ℕ → ConnectionState → ConnectionState
register peer st = record st { pending = remove peer st.pending; active = put peer tt st.active }

unfoldable pub end_accept : ℕ → ConnectionState → ConnectionState
end_accept peer st = record st { accepting = remove peer st.accepting }

-- The loop of `accept`, without another task between its steps, over what the queue gives before it
-- is closed, each with the result of `KcpStream::new_server_stream` for it
unfoldable pub accept :
    List (IncomingConnection × Result ℕ)
    → List (ℕ × ℕ) × ConnectionState
    → (List (ℕ × ℕ) × ConnectionState) × Result (ℕ × ℕ)
unfolding begin_accept register end_accept
accept [] (streams, st) = ((streams, st), err (connection closed))
accept ((inc, r) ∷ incs) (streams, st) = elim (begin_accept inc st) [
  | none ↦ accept incs (streams, st)
  | some st' ↦ elim r [
    | ok input_tx ↦ (
      (put inc.peer_addr input_tx streams, end_accept inc.peer_addr (register inc.peer_addr st')),
      ok (input_tx, inc.peer_addr),
    )
    | err e ↦ accept incs (streams, end_accept inc.peer_addr st')
  ]
]

-- The addresses of the streams whose channel is closed
unfoldable pub dead_addrs : (ℕ → Bool) → List (ℕ × ℕ) → List ℕ
dead_addrs is_closed [] = []
dead_addrs is_closed ((peer, input_tx) ∷ streams) =
    if is_closed input_tx then peer ∷ dead_addrs is_closed streams else dead_addrs is_closed streams

unfoldable pub cleanup_dead_streams :
    (ℕ → Bool) → List (ℕ × ℕ) × ConnectionState → List (ℕ × ℕ) × ConnectionState
unfolding dead_addrs
cleanup_dead_streams is_closed (streams, st) =
    let dead = dead_addrs is_closed streams in
    (remove_all dead streams, record st { active = remove_all dead st.active })

-- `duration_since` is 0 for an instant that is later.
unfoldable pub cleanup_pending_connections : ℕ → ℕ → ConnectionState → ConnectionState
cleanup_pending_connections timeout now st = record st {
  pending = retain (λ peer inc. ltb (now - inc.created_at) timeout) st.pending;
}
