-- ===== src/Kcp/Listener/Bounds.antt =====
-- kcp/listener.rs: how many connections are pending, and their conversation ids, whatever the
-- interleaving.
use rust_kcp.Base.{
  ℕ, ◌≤◌, ◌<◌, ◌≡◌, ◌≢◌, ◌⊎◌, subst, arith, inl, inr, List, [], ◌∷◌, length, All, none, some,
  Option-cases, ltb, ◌==◌, Bool-cases, eqb→eq, eqb→ne, ltb→lt, u32, get_elem?, zero, suc,
}
use rust_kcp.Base.HashMap.{
  has, put, length-remove, length-put, length-retain, Values, remove-Values, retain-Values,
}
use rust_kcp.Protocol.{KcpHeader, random_conv_id}
use rust_kcp.Protocol.Wire.{ByteCodec, decode_header}
use rust_kcp.Kcp.Listener.{
  IncomingConnection, ConnectionState, is_new_peer, screen, server_conv, new_incoming, add_pending,
  drop_pending, remove_active_connection, begin_accept, register, end_accept, cleanup_dead_streams,
  cleanup_pending_connections,
}
use rust_kcp.Kcp.Listener.Interleaving.{
  Listening, selecting, screened, inserted, Accepting, idle, creating, registered, created, System,
  Step, look, add, sent, unsent, reap, expire, take, fail, succeed, route, finish, forget, Reach,
  begin, next,
}

-- A connection that a stream may be created for: its own conversation id is not 0, and it is the
-- peer's if the peer chose one.
abbrev pub IsGood : IncomingConnection → Type 0
IsGood inc = (inc.conv ≢ 0) × ((inc.client_conv ≡ inc.conv) ⊎ (inc.client_conv ≡ 0))

random_conv_id-ne : (draws : List ℕ) (c : ℕ) → random_conv_id draws ≡ some c → c ≢ 0
unfolding random_conv_id
random_conv_id-ne [] c h = absurd (cc)
random_conv_id-ne (d ∷ draws) c h = elim (Bool-cases (u32 d == 0)) [
  | inl t ↦ random_conv_id-ne draws c (rw t at h)
  | inr t ↦
      let p : some (u32 d) ≡ some c = rw t at h in
      let q : u32 d ≡ c = cc in subst (λ x. x ≢ 0) q (eqb→ne (u32 d) 0 t)
]

server_conv-IsGood :
    (draws : List ℕ) (client conv now peer : ℕ) (bytes : List ℕ)
    → server_conv draws client ≡ some conv
    → IsGood (new_incoming now peer bytes client conv)
unfolding server_conv new_incoming
server_conv-IsGood draws client conv now peer bytes h = elim (Bool-cases (client == 0)) [
  | inl t ↦ (random_conv_id-ne draws conv (rw t at h), inr (eqb→eq client 0 t))
  | inr t ↦
      let p : some client ≡ some conv = rw t at h in
      let q : client ≡ conv = cc in (subst (λ x. x ≢ 0) q (eqb→ne client 0 t), inl q)
]

screen_room :
    (codec : ByteCodec) (max_pending peer : ℕ) (bytes : List ℕ) (st : ConnectionState)
    (h : KcpHeader)
    → screen codec max_pending peer bytes st ≡ some h
    → length st.pending < max_pending
unfolding screen is_new_peer
screen_room codec max_pending peer bytes st h found =
    elim (Option-cases (decode_header codec bytes)) [
      | inl n ↦ absurd (let z : none ≡ some h = rw (n, screen) at found in cc)
      | inr ((g, rest), d) ↦ elim (Bool-cases (ltb (length st.pending) max_pending)) [
        | inl t ↦ ltb→lt _ _ t
        | inr t ↦ absurd (ground (arith, d, t))
      ]
    ]

-- What the tasks hold
abbrev ListenerHolds : ℕ → ConnectionState → Listening → Type 0
ListenerHolds max_pending st selecting = Unit
ListenerHolds max_pending st (screened inc) = IsGood inc × (length st.pending < max_pending)
ListenerHolds max_pending st (inserted inc) = IsGood inc

abbrev AcceptHolds : Accepting → Type 0
AcceptHolds idle = Unit
AcceptHolds (creating inc) = IsGood inc
AcceptHolds (registered peer input_tx) = Unit
AcceptHolds (created peer) = Unit

pub record IsBounded (max_pending : ℕ) (s : System) : Type 0 where
  pub few : length s.conn.pending ≤ max_pending
  pub good : Values IsGood s.conn.pending
  pub queue_good : All IsGood s.queued
  pub listener : ListenerHolds max_pending s.conn s.listening
  pub acceptor : AcceptHolds s.accepting

-- With fewer pending, and the rest of the listener's
fewer :
    (max_pending : ℕ) (st st' : ConnectionState) (l : Listening)
    → length st'.pending ≤ length st.pending
    → ListenerHolds max_pending st l
    → ListenerHolds max_pending st' l
fewer max_pending st st' selecting n h = tt
fewer max_pending st st' (screened inc) n (g, r) = (g, omega arith)
fewer max_pending st st' (inserted inc) n h = h

queue_get :
    (i : ℕ) (xs : List IncomingConnection) (inc : IncomingConnection)
    → All IsGood xs
    → get_elem? xs i ≡ some inc
    → IsGood inc
queue_get i [] inc h e = absurd (cc)
queue_get zero (x ∷ xs) inc h e = let q : x ≡ inc = cc in subst IsGood q h.0
queue_get (suc i) (x ∷ xs) inc h e = queue_get i xs inc h.1 e

begin_accept-pending :
    (inc : IncomingConnection) (st st' : ConnectionState)
    → begin_accept inc st ≡ some st'
    → st'.pending ≡ st.pending
unfolding begin_accept
begin_accept-pending inc st st' h = elim (Bool-cases (has inc.peer_addr st.active)) [
  | inl t ↦ absurd (let z : none ≡ some st' = rw t at h in cc)
  | inr t ↦
      let z : some (record st { accepting = put inc.peer_addr tt st.accepting }) ≡ some st' =
        rw t at h in
      cc
]

-- A step that takes nothing into the tables and leaves the tasks where they are
smaller :
    (max_pending : ℕ) (s : System) (st : ConnectionState)
    → length st.pending ≤ length s.conn.pending
    → Values IsGood st.pending
    → IsBounded max_pending s
    → IsBounded max_pending (record s { conn = st })
smaller max_pending s st n g v = record {
  few = omega (arith, n, v.few);
  good = g;
  queue_good = v.queue_good;
  listener = fewer max_pending s.conn st s.listening n v.listener;
  acceptor = v.acceptor;
}

step-IsBounded :
    (codec : ByteCodec) (max_pending : ℕ) (s t : System)
    → IsBounded max_pending s
    → Step codec max_pending s t
    → IsBounded max_pending t
unfolding add_pending drop_pending cleanup_dead_streams cleanup_pending_connections register
    end_accept remove_active_connection
step-IsBounded codec max_pending s t v (look peer bytes now draws {h} {conv} e f g c) = record {
  few = v.few;
  good = v.good;
  queue_good = v.queue_good;
  listener = (
    server_conv-IsGood draws h.conv conv now peer bytes c,
    screen_room codec max_pending peer bytes s.conn h g,
  );
  acceptor = v.acceptor;
}
step-IsBounded codec max_pending s t v (add {inc} e) =
    let held : IsGood inc × (length s.conn.pending < max_pending) = rw e at v.listener in
    record {
      few = omega (arith, held.1, length-put inc.peer_addr inc s.conn.pending);
      good = unfold put in (held.0, remove-Values IsGood inc.peer_addr s.conn.pending v.good);
      queue_good = v.queue_good;
      listener = held.0;
      acceptor = v.acceptor;
    }
step-IsBounded codec max_pending s t v (sent {inc} e) = record {
  few = v.few;
  good = v.good;
  queue_good = (rw e at v.listener, v.queue_good);
  listener = tt;
  acceptor = v.acceptor;
}
step-IsBounded codec max_pending s t v (unsent {inc} e) = record {
  few = omega (arith, v.few, length-remove inc.peer_addr s.conn.pending);
  good = remove-Values IsGood inc.peer_addr s.conn.pending v.good;
  queue_good = v.queue_good;
  listener = tt;
  acceptor = v.acceptor;
}
step-IsBounded codec max_pending s t v (reap is_closed e) = record {
  few = v.few;
  good = v.good;
  queue_good = v.queue_good;
  listener =
      fewer max_pending s.conn (cleanup_dead_streams is_closed (s.streams, s.conn)).1 s.listening
        (omega arith) v.listener;
  acceptor = v.acceptor;
}
step-IsBounded codec max_pending s t v (expire timeout now e) =
    smaller max_pending s _ (length-retain _ s.conn.pending)
      (retain-Values IsGood _ s.conn.pending v.good) v
step-IsBounded codec max_pending s t v (take i {inc} {st} e g b) =
    let q = begin_accept-pending inc s.conn st b in
    let w = smaller max_pending s st (rw q (omega arith)) (rw q v.good) v in
    record {
      few = w.few;
      good = w.good;
      queue_good = w.queue_good;
      listener = w.listener;
      acceptor = queue_get i s.queued inc v.queue_good g;
    }
step-IsBounded codec max_pending s t v (fail e) = record {
  few = v.few;
  good = v.good;
  queue_good = v.queue_good;
  listener = v.listener;
  acceptor = tt;
}
step-IsBounded codec max_pending s t v (succeed {inc} input_tx e) =
    let w =
      smaller max_pending s (register inc.peer_addr s.conn)
        (length-remove inc.peer_addr s.conn.pending)
        (remove-Values IsGood inc.peer_addr s.conn.pending v.good) v in
    record {
      few = w.few;
      good = w.good;
      queue_good = w.queue_good;
      listener = w.listener;
      acceptor = tt;
    }
step-IsBounded codec max_pending s t v (route e) = record {
  few = v.few;
  good = v.good;
  queue_good = v.queue_good;
  listener = v.listener;
  acceptor = tt;
}
step-IsBounded codec max_pending s t v (finish {peer} e) =
    let w = smaller max_pending s (end_accept peer s.conn) (omega arith) v.good v in
    record {
      few = w.few;
      good = w.good;
      queue_good = w.queue_good;
      listener = w.listener;
      acceptor = tt;
    }
step-IsBounded codec max_pending s t v (forget peer) =
    smaller max_pending s (remove_active_connection peer s.conn) (omega arith) v.good v

-- In every state that the two tasks of a listener reach, interleaved between their locks and
-- waits: no more connections are pending than the limit, and every connection that is pending,
-- queued or being accepted has a conversation id that is not 0 and is the client's, if the client
-- chose one.
pub Reach-IsBounded :
    (codec : ByteCodec) (max_pending : ℕ) {s : System}
    → Reach codec max_pending s
    → IsBounded max_pending s
Reach-IsBounded codec max_pending begin = record {
  few = omega arith;
  good = tt;
  queue_good = tt;
  listener = tt;
  acceptor = tt;
}
Reach-IsBounded codec max_pending (next {s} {t} r m) =
    step-IsBounded codec max_pending s t (Reach-IsBounded codec max_pending r) m
