-- ===== src/Kcp/Listener/Interleaving.antt =====
-- kcp/listener.rs: the two tasks of a listener, interleaved wherever one of them waits or lets go
-- of the lock.
use rust_kcp.Base.{ℕ, ◌≡◌, Bool, List, [], ◌∷◌, none, some, get_elem?}
use rust_kcp.Base.HashMap.{find, put}
use rust_kcp.Protocol.{KcpHeader}
use rust_kcp.Protocol.Wire.{ByteCodec}
use rust_kcp.Kcp.Listener.{
  IncomingConnection, ConnectionState, new_state, remove_active_connection, screen, server_conv,
  new_incoming, add_pending, drop_pending, begin_accept, register, end_accept, cleanup_dead_streams,
  cleanup_pending_connections,
}

-- Where the listening task stands: before a `select!`, behind the checks, or before the `try_send`
pub data Listening : Type 0 where
  selecting : Listening
  screened inserted : IncomingConnection → Listening

-- Where `accept` stands: before the queue, at `create_stream_for_connection`, between its lock and
-- `active_streams`, or behind it
pub data Accepting : Type 0 where
  idle : Accepting
  creating : IncomingConnection → Accepting
  registered : (peer input_tx : ℕ) → Accepting
  created : (peer : ℕ) → Accepting

-- `queued` is all that was ever put into the connection queue.
pub record System : Type 0 where
  pub conn : ConnectionState
  pub streams : List (ℕ × ℕ)
  pub queued : List IncomingConnection
  pub listening : Listening
  pub accepting : Accepting

pub data Step (codec : ByteCodec) (max_pending : ℕ) (s : System) : System → Type 0 where
  look :
      (peer : ℕ) (bytes : List ℕ) (now : ℕ) (draws : List ℕ) {h : KcpHeader} {conv : ℕ}
      → s.listening ≡ selecting
      → find peer s.streams ≡ none
      → screen codec max_pending peer bytes s.conn ≡ some h
      → server_conv draws h.conv ≡ some conv
      → Step codec max_pending s
          (record s { listening = screened (new_incoming now peer bytes h.conv conv) })
  add :
      {inc : IncomingConnection}
      → s.listening ≡ screened inc
      → Step codec max_pending s
          (record s { conn = add_pending inc s.conn; listening = inserted inc })
  sent :
      {inc : IncomingConnection}
      → s.listening ≡ inserted inc
      → Step codec max_pending s (record s { queued = inc ∷ s.queued; listening = selecting })
  unsent :
      {inc : IncomingConnection}
      → s.listening ≡ inserted inc
      → Step codec max_pending s
          (record s { conn = drop_pending inc.peer_addr s.conn; listening = selecting })
  reap :
      (is_closed : ℕ → Bool)
      → s.listening ≡ selecting
      → Step codec max_pending s (record s {
        streams = (cleanup_dead_streams is_closed (s.streams, s.conn)).0;
        conn = (cleanup_dead_streams is_closed (s.streams, s.conn)).1;
      })
  expire :
      (timeout now : ℕ)
      → s.listening ≡ selecting
      → Step codec max_pending s
          (record s { conn = cleanup_pending_connections timeout now s.conn })
  take :
      (i : ℕ) {inc : IncomingConnection} {st : ConnectionState}
      → s.accepting ≡ idle
      → get_elem? s.queued i ≡ some inc
      → begin_accept inc s.conn ≡ some st
      → Step codec max_pending s (record s { conn = st; accepting = creating inc })
  fail :
      {inc : IncomingConnection}
      → s.accepting ≡ creating inc
      → Step codec max_pending s (record s { accepting = created inc.peer_addr })
  succeed :
      {inc : IncomingConnection} (input_tx : ℕ)
      → s.accepting ≡ creating inc
      → Step codec max_pending s (record s {
        conn = register inc.peer_addr s.conn;
        accepting = registered inc.peer_addr input_tx;
      })
  route :
      {peer input_tx : ℕ}
      → s.accepting ≡ registered peer input_tx
      → Step codec max_pending s
          (record s { streams = put peer input_tx s.streams; accepting = created peer })
  finish :
      {peer : ℕ}
      → s.accepting ≡ created peer
      → Step codec max_pending s (record s { conn = end_accept peer s.conn; accepting = idle })
  forget :
      (peer : ℕ)
      → Step codec max_pending s (record s { conn = remove_active_connection peer s.conn })

-- `with_transport`
abbrev pub opened_listener : System
opened_listener = record {
  conn = new_state;
  streams = [];
  queued = [];
  listening = selecting;
  accepting = idle;
}

pub data Reach (codec : ByteCodec) (max_pending : ℕ) : System → Type 0 where
  begin : Reach codec max_pending opened_listener
  next :
      {s t : System}
      → Reach codec max_pending s
      → Step codec max_pending s t
      → Reach codec max_pending t
