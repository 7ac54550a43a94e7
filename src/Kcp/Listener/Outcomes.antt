-- ===== src/Kcp/Listener/Outcomes.antt =====
-- kcp/listener.rs: what `handle_incoming_packet` and `accept` can come to.
use rust_kcp.Base.{
  ℕ, ◌≤◌, ◌<◌, ◌≡◌, ◌⊎◌, refl, ◌∙◌, ap, subst, arith, inl, inr, Bool, true, false, List, [], ◌∷◌,
  length, Option, none, some, Option-cases, Bool-cases, leb, ◌&&◌, leb→le,
}
use rust_kcp.Base.HashMap.{find, has, put, remove, remove_gone, remove-put, find-put, has-put_same}
use rust_kcp.Protocol.{KcpHeader, header_size}
use rust_kcp.Protocol.Wire.{ByteCodec, decode_header}
use rust_kcp.Kcp.Error.{Result, ok, err, connection, closed}
use rust_kcp.Kcp.Listener.{
  IncomingConnection, ConnectionState, is_kcp_cmd, is_new_peer, screen, server_conv, new_incoming,
  add_pending, drop_pending, handle_incoming_packet, begin_accept, register, end_accept, accept,
}

-- A peer that is in none of the tables, and room for it
abbrev pub IsNewPeer : ℕ → ℕ → ConnectionState → Type 0
IsNewPeer max_pending peer st =
    (has peer st.active ≡ false)
    × (has peer st.accepting ≡ false)
    × (has peer st.pending ≡ false)
    × (length st.pending < max_pending)

is_new_peer-IsNewPeer :
    (max_pending peer : ℕ) (st : ConnectionState)
    → is_new_peer max_pending peer st ≡ true
    → IsNewPeer max_pending peer st
unfolding is_new_peer
is_new_peer-IsNewPeer max_pending peer st h = ground arith

module _ (codec : ByteCodec) (max_pending : ℕ) (peer : ℕ) (bytes : List ℕ)
    (st : ConnectionState) where
  -- What a packet has that gets past the checks
  abbrev pub Passes : KcpHeader → Type 0
  Passes h =
      (rest : List ℕ) × (decode_header codec bytes ≡ some (h, rest))
      × (header_size ≤ length bytes)
      × (is_kcp_cmd h.cmd ≡ true)
      × IsNewPeer max_pending peer st

  screen-Passes : (h : KcpHeader) → screen codec max_pending peer bytes st ≡ some h → Passes h
  unfolding screen
  screen-Passes h found = elim (Option-cases (decode_header codec bytes)) [
    | inl n ↦ absurd (let z : none ≡ some h = rw (n, screen) at found in cc)
    | inr ((g, rest), d) ↦
        elim (Bool-cases
          (leb header_size (length bytes) && is_kcp_cmd g.cmd && is_new_peer max_pending peer st)) [
            | inr f ↦ absurd (let z : none ≡ some h = rw (d, f, screen) at found in cc)
            | inl t ↦
                let z : some g ≡ some h = rw (d, t, screen) at found in
                let q : g ≡ h = cc in
                (
                  rest,
                  d ∙ ap (λ x. some (x, rest)) q,
                  leb→le _ _ (ground arith),
                  subst (λ x. is_kcp_cmd x.cmd ≡ true) q (ground arith),
                  is_new_peer-IsNewPeer max_pending peer st (ground arith),
                )
          ]
  ]

  -- All or nothing: the tables as they were and nothing queued, or one more pending connection, in
  -- the table and in the queue, for a packet that passes
  abbrev pub AllOrNothing : List ℕ → ℕ → Bool → ConnectionState × Option IncomingConnection → Type 0
  AllOrNothing draws now room x =
      (x ≡ (st, none))
      ⊎ ((h : KcpHeader) × (conv : ℕ) × Passes h
          × (server_conv draws h.conv ≡ some conv)
          × (room ≡ true)
          × (x ≡ (
            add_pending (new_incoming now peer bytes h.conv conv) st,
            some (new_incoming now peer bytes h.conv conv),
          )))

  -- `handle_incoming_packet` does all or nothing: it leaves the tables as they were and queues
  -- nothing, or the packet has a whole header with a KCP command, the peer is in none of the
  -- tables, there is room in the table and in the queue, and one connection is added to both.
  pub handle_incoming_packet_lem :
      (draws : List ℕ) (now : ℕ) (room : Bool)
      → AllOrNothing draws now room
          (handle_incoming_packet codec max_pending draws now peer bytes room st)
  unfolding handle_incoming_packet new_incoming add_pending drop_pending
  handle_incoming_packet_lem draws now true =
      elim (Option-cases (screen codec max_pending peer bytes st)) [
        | inl n ↦ rw (n, handle_incoming_packet) (inl refl)
        | inr (h, e) ↦ elim (Option-cases (server_conv draws h.conv)) [
          | inl n ↦ rw (e, n, handle_incoming_packet) (inl refl)
          | inr (conv, c) ↦
              rw (e, c, handle_incoming_packet) (inr (h, conv, screen-Passes h e, c, refl, refl))
        ]
      ]
  handle_incoming_packet_lem draws now false =
      elim (Option-cases (screen codec max_pending peer bytes st)) [
        | inl n ↦ rw (n, handle_incoming_packet) (inl refl)
        | inr (h, e) ↦ elim (Option-cases (server_conv draws h.conv)) [
          | inl n ↦ rw (e, n, handle_incoming_packet) (inl refl)
          | inr (conv, c) ↦
              let (rest, d, long, cmd, new) = screen-Passes h e in
              let inc = new_incoming now peer bytes h.conv conv in
              let undone : remove peer (put peer inc st.pending) ≡ st.pending =
                remove-put peer inc st.pending new.2 in
              rw (e, c, handle_incoming_packet)
                (inl (ap (λ m. (record st { pending = m }, none)) undone))
        ]
      ]

-- What `accept` leaves: a stream's peer is routed to it, active and nothing else; without a stream,
-- the routes and the active peers are those that were.
abbrev pub Accepted :
    List (ℕ × ℕ) × ConnectionState → (List (ℕ × ℕ) × ConnectionState) × Result (ℕ × ℕ) → Type 0
Accepted (streams, st) ((streams', st'), ok (input_tx, peer)) =
    (find peer streams' ≡ some input_tx)
    × (streams' ≡ put peer input_tx streams)
    × (has peer st'.active ≡ true)
    × (has peer st'.pending ≡ false)
    × (has peer st'.accepting ≡ false)
    × (has peer st.active ≡ false)
Accepted (streams, st) ((streams', st'), err e) =
    (streams' ≡ streams)
    × (st'.active ≡ st.active)
    × (st'.pending ≡ st.pending)
    × (e ≡ connection closed)

Accepted-from :
    (streams : List (ℕ × ℕ)) (st d : ConnectionState)
    (x : (List (ℕ × ℕ) × ConnectionState) × Result (ℕ × ℕ))
    → d.active ≡ st.active
    → d.pending ≡ st.pending
    → Accepted (streams, d) x
    → Accepted (streams, st) x
Accepted-from streams st d ((streams', st'), ok (input_tx, peer)) a p (f, z, g, h, i, j) =
    (f, z, g, h, i, rw a at j)
Accepted-from streams st d ((streams', st'), err e) a p (z, g, h, i) = (z, g ∙ a, h ∙ p, i)

-- When accept returns a stream, its peer was not active before, is active and routed to the stream
-- now, and is neither pending nor being accepted, and no other route has changed; when it fails,
-- the queue is closed, and the routes, the active and the pending peers are those that were.
pub accept-Accepted :
    (incs : List (IncomingConnection × Result ℕ)) (streams : List (ℕ × ℕ)) (st : ConnectionState)
    → Accepted (streams, st) (accept incs (streams, st))
unfolding accept begin_accept register end_accept
accept-Accepted [] streams st = (refl, refl, refl, refl)
accept-Accepted ((inc, ok input_tx) ∷ incs) streams st =
    let peer = inc.peer_addr in
    elim (Bool-cases (has peer st.active)) [
      | inl t ↦ rw (t, accept) (accept-Accepted incs streams st)
      | inr t ↦
          rw (t, accept)
            (
              find-put peer input_tx streams,
              refl,
              has-put_same peer tt st.active,
              remove_gone peer st.pending,
              remove_gone peer (put peer tt st.accepting),
              t,
            )
    ]
accept-Accepted ((inc, err e) ∷ incs) streams st =
    let peer = inc.peer_addr in
    elim (Bool-cases (has peer st.active)) [
      | inl t ↦ rw (t, accept) (accept-Accepted incs streams st)
      | inr t ↦
          let d = record st { accepting = remove peer (put peer tt st.accepting) } in
          rw (t, accept)
            (Accepted-from streams st d (accept incs (streams, d)) refl refl
              (accept-Accepted incs streams d))
    ]
