-- ===== src/Kcp/Listener/Routing.antt =====
-- kcp/listener.rs: which datagrams reach a stream.
use rust_kcp.Base.{ℕ, ◌≡◌, ◌⊎◌, subst, inl, inr, true, none, some, Bool-cases, sym}
use rust_kcp.Base.HashMap.{
  has, put, has-remove, has-put, has-put_same, put-has, remove_all-has, has-remove_all,
}
use rust_kcp.Protocol.Wire.{ByteCodec}
use rust_kcp.Kcp.Listener.{
  IncomingConnection, ConnectionState, add_pending, drop_pending, remove_active_connection,
  begin_accept, register, end_accept, dead_addrs, cleanup_dead_streams, cleanup_pending_connections,
}
use rust_kcp.Kcp.Listener.Interleaving.{
  Accepting, idle, creating, registered, created, System, Step, look, add, sent, unsent, reap,
  expire, take, fail, succeed, route, finish, forget, Reach, begin, next,
}

-- `accept` is about to enter the stream of this peer.
abbrev pub IsEntering : ℕ → Accepting → Type 0
IsEntering i idle = ⊥
IsEntering i (creating inc) = ⊥
IsEntering i (registered peer input_tx) = i ≡ peer
IsEntering i (created peer) = ⊥

abbrev pub IsRouted : System → ℕ → Type 0
IsRouted s i = has i s.conn.active ≡ true → (has i s.streams ≡ true) ⊎ IsEntering i s.accepting

begin_accept-active :
    (inc : IncomingConnection) (st st' : ConnectionState)
    → begin_accept inc st ≡ some st'
    → st'.active ≡ st.active
unfolding begin_accept
begin_accept-active inc st st' h = elim (Bool-cases (has inc.peer_addr st.active)) [
  | inl t ↦ absurd (let z : none ≡ some st' = rw t at h in cc)
  | inr t ↦
      let z : some (record st { accepting = put inc.peer_addr tt st.accepting }) ≡ some st' =
        rw t at h in
      cc
]

-- A step that leaves the streams and enters none keeps the route.
step-IsRouted :
    (codec : ByteCodec) (max_pending i : ℕ) (s t : System)
    → IsRouted s i
    → Step codec max_pending s t
    → IsRouted t i
unfolding add_pending drop_pending cleanup_dead_streams cleanup_pending_connections register
    end_accept remove_active_connection
step-IsRouted codec max_pending i s t v (look peer bytes now draws e f g c) = v
step-IsRouted codec max_pending i s t v (add e) = v
step-IsRouted codec max_pending i s t v (sent e) = v
step-IsRouted codec max_pending i s t v (unsent e) = v
step-IsRouted codec max_pending i s t v (reap is_closed e) = λ h.
    let dead = dead_addrs is_closed s.streams in
    elim (Bool-cases (has i s.streams)) [
      | inl r ↦ inl (remove_all-has i dead s.conn.active s.streams (λ a. r) h)
      | inr r ↦ elim (v (has-remove_all i dead s.conn.active h)) [
        | inl r2 ↦ absurd (cc)
        | inr w ↦ inr w
      ]
    ]
step-IsRouted codec max_pending i s t v (expire timeout now e) = v
step-IsRouted codec max_pending i s t v (take j {inc} {st} e g b) = λ h.
    let a = begin_accept-active inc s.conn st b in
    elim (v (rw a at h)) [ inl r ↦ inl r | inr w ↦ absurd (rw e at w) ]
step-IsRouted codec max_pending i s t v (fail e) =
    λ h. elim (v h) [ inl r ↦ inl r | inr w ↦ absurd (rw e at w) ]
step-IsRouted codec max_pending i s t v (succeed {inc} input_tx e) = λ h.
    elim (has-put i inc.peer_addr tt s.conn.active h) [
      | inl z ↦ inr z
      | inr a ↦ elim (v a) [ inl r ↦ inl r | inr w ↦ absurd (rw e at w) ]
    ]
step-IsRouted codec max_pending i s t v (route {peer} {input_tx} e) = λ h. elim (v h) [
  | inl r ↦ inl (put-has i peer input_tx s.streams r)
  | inr w ↦
      let z : i ≡ peer = rw e at w in
      inl (
        subst (λ k. has k (put peer input_tx s.streams) ≡ true) (sym z)
          (has-put_same peer input_tx s.streams))
]
step-IsRouted codec max_pending i s t v (finish {peer} e) =
    λ h. elim (v h) [ inl r ↦ inl r | inr w ↦ absurd (rw e at w) ]
step-IsRouted codec max_pending i s t v (forget peer) = λ h. v (has-remove i peer s.conn.active h).1

Reach-IsRouted :
    (codec : ByteCodec) (max_pending i : ℕ) {s : System} → Reach codec max_pending s → IsRouted s i
unfolding has
Reach-IsRouted codec max_pending i begin = λ h. absurd (cc)
Reach-IsRouted codec max_pending i (next {s} {t} r m) =
    step-IsRouted codec max_pending i s t (Reach-IsRouted codec max_pending i r) m

-- In every state that the two tasks of a listener reach, a peer that counts as active has a stream
-- that its datagrams are routed to, or accept is just about to enter it.
pub active_peer_routed :
    (codec : ByteCodec) (max_pending peer : ℕ) {s : System}
    → Reach codec max_pending s
    → has peer s.conn.active ≡ true
    → (has peer s.streams ≡ true) ⊎ IsEntering peer s.accepting
active_peer_routed codec max_pending peer r = Reach-IsRouted codec max_pending peer r
