-- ===== src/Engine/Recv/Order.antt =====
-- `move_to_recv_queue` (kcp-core/src/engine.rs) against the stream that the peer sends: segment
-- number `a` of the stream, counted without wrap, travels under the sequence number `a % 2 ^ 32`.
use rust_kcp.Base.{
  ℕ, zero, suc, ◌+◌, ◌≤◌, ◌<◌, ◌^◌, ◌≡◌, ◌≢◌, refl, sym, ap, ◌∙◌, arith, max, List, [], ◌∷◌, subst,
  ◌++◌, append_assoc, append-nil, length, length-append, none, some, u32, add32, leb, Bool-cases,
  Option-cases, inl, inr, ◌⊎◌, leb→le, leb→gt,
}
use rust_kcp.Base.BTreeMap.{
  lookup, erase, insert, Entries, Ascending, lookup-Entries, erase-Entries, insert-Entries,
  Entries-map, Entries-both, erase-Ascending, insert-Ascending, erase-ne, length-erase,
}
use rust_kcp.Protocol.{KcpSegment}
use rust_kcp.Engine.{KcpEngine}
use rust_kcp.Engine.Recv.{RecvState, move_loop, recv_state, move_to_recv_queue}

module _ (src : ℕ → List ℕ) where
  -- Segment `a` of the stream
  abbrev pub IsNumber : ℕ → KcpSegment → Type 0
  IsNumber a seg = (seg.header.sn ≡ u32 a) × (seg.payload ≡ src a)

  -- The segments from `a` on, in order and with no gap
  abbrev pub IsRun : ℕ → List KcpSegment → Type 0
  IsRun a [] = Unit {0}
  IsRun a (seg ∷ segs) = IsNumber a seg × IsRun (suc a) segs

  pub IsRun-append :
      (a : ℕ) (xs ys : List KcpSegment) → IsRun a xs → IsRun (a + length xs) ys → IsRun a (xs ++ ys)
  IsRun-append a [] ys p q = let e : a + 0 ≡ a = omega arith in subst (λ k. IsRun k ys) e q
  IsRun-append a (x ∷ xs) ys p q =
      let e : a + suc (length xs) ≡ suc a + length xs = omega arith in
      (p.0, IsRun-append (suc a) xs ys p.1 (subst (λ k. IsRun k ys) e q))

  -- An entry of `rcv_buf`: one of the `wnd` segments from `n` on, under its sequence number
  abbrev pub Waits : ℕ → ℕ → ℕ → KcpSegment → Type 0
  Waits wnd n key seg = (a : ℕ) × (key ≡ u32 a) × (n ≤ a) × (a < n + wnd) × IsNumber a seg

  -- The receive side expects segment `n` of the stream, and holds later ones.
  pub record IsReceiving (wnd n : ℕ) (s : RecvState) : Type 0 where
    pub expects : s.nxt ≡ u32 n
    pub ascending : Ascending s.buf
    pub holds : Entries (Waits wnd n) s.buf

  -- The segment that is expected, when it is there
  found-IsNumber :
      (wnd n : ℕ) (s : RecvState) (seg : KcpSegment)
      → wnd ≤ 2 ^ 31
      → IsReceiving wnd n s
      → lookup s.nxt s.buf ≡ some seg
      → IsNumber n seg
  found-IsNumber wnd n s seg h v found =
      let (a, key, lo, hi, num) = lookup-Entries (Waits wnd n) s.nxt seg s.buf v.holds found in
      let e : a ≡ n = omega (arith, v.expects) in subst (λ k. IsNumber k seg) e num

  Waits-on :
      (wnd n nxt key : ℕ) (seg : KcpSegment)
      → nxt ≡ u32 n
      → Waits wnd n key seg × (key ≢ nxt)
      → Waits wnd (suc n) key seg
  Waits-on wnd n nxt key seg e ((a, k, lo, hi, num), ne) = (a, k, omega arith, omega arith, num)

  advance :
      (wnd n : ℕ) (s : RecvState) (queue : List KcpSegment)
      → IsReceiving wnd n s
      → IsReceiving wnd
          (suc n)
          (record { buf = erase s.nxt s.buf; queue = queue; nxt = add32 s.nxt 1 })
  advance wnd n s queue v = record {
    expects = omega (arith, v.expects);
    ascending = erase-Ascending s.nxt s.buf v.ascending;
    holds =
        Entries-map (λ k seg. Waits wnd n k seg × (k ≢ s.nxt)) (Waits wnd (suc n)) _
          (λ k seg. Waits-on wnd n s.nxt k seg v.expects)
          (Entries-both (Waits wnd n) (λ k seg. k ≢ s.nxt) _
            (erase-Entries (Waits wnd n) s.nxt s.buf v.holds) (erase-ne s.nxt s.buf v.ascending));
  }

  -- What the loop does: it appends a run of the stream to the queue, and stops where the next
  -- segment is missing or the queue is full.
  pub record Moves (wnd n : ℕ) (s : RecvState) (s' : RecvState) : Type 0 where
    pub moved : List KcpSegment
    pub appended : s'.queue ≡ s.queue ++ moved
    pub is_run : IsRun n moved
    pub receiving : IsReceiving wnd (n + length moved) s'
    pub stopped : (lookup s'.nxt s'.buf ≡ none) ⊎ (wnd ≤ length s'.queue)
    pub within : length s'.queue ≤ max wnd (length s.queue)
    pub few : length moved ≤ wnd

  Moves-nothing :
      (wnd n : ℕ) (s s' : RecvState)
      → s'.queue ≡ s.queue
      → IsReceiving wnd n s'
      → ((lookup s'.nxt s'.buf ≡ none) ⊎ (wnd ≤ length s'.queue))
      → Moves wnd n s s'
  Moves-nothing wnd n s s' q v h =
      let e : n + 0 ≡ n = omega arith in
      record {
        moved = [];
        appended = q ∙ sym (append-nil s.queue);
        is_run = tt;
        receiving = subst (λ k. IsReceiving wnd k s') (sym e) v;
        stopped = h;
        within = omega (arith, ap length q);
        few = omega arith;
      }

  Moves-one :
      (wnd n : ℕ) (s t s' : RecvState) (seg : KcpSegment)
      → t.queue ≡ s.queue ++ seg ∷ []
      → length s.queue < wnd
      → IsNumber n seg
      → Moves wnd (suc n) t s'
      → Moves wnd n s s'
  Moves-one wnd n s t s' seg q h num m =
      let e : suc n + length m.moved ≡ n + suc (length m.moved) = omega arith in
      record {
        moved = seg ∷ m.moved;
        appended =
            m.appended ∙ ap (λ xs. xs ++ m.moved) q ∙ append_assoc s.queue (seg ∷ []) m.moved;
        is_run = (num, m.is_run);
        receiving = subst (λ k. IsReceiving wnd k s') e m.receiving;
        stopped = m.stopped;
        within = omega (arith, m.within, ap length q, length-append s.queue (seg ∷ []));
        few = omega (
          arith,
          m.within,
          ap length m.appended,
          length-append t.queue m.moved,
          ap length q,
          length-append s.queue (seg ∷ []),
        );
      }

  put_back :
      (wnd n : ℕ) (s : RecvState) (seg : KcpSegment)
      → IsReceiving wnd n s
      → lookup s.nxt s.buf ≡ some seg
      → IsReceiving wnd n (record s { buf = insert s.nxt seg (erase s.nxt s.buf) })
  put_back wnd n s seg v found = record {
    expects = v.expects;
    ascending = insert-Ascending s.nxt seg _ (erase-Ascending s.nxt s.buf v.ascending);
    holds =
        insert-Entries (Waits wnd n) s.nxt seg _
          (lookup-Entries (Waits wnd n) s.nxt seg s.buf v.holds found)
          (erase-Entries (Waits wnd n) s.nxt s.buf v.holds);
  }

  pub move_loop-Moves :
      (fuel wnd n : ℕ) (s : RecvState)
      → wnd ≤ 2 ^ 31
      → length s.buf < fuel
      → IsReceiving wnd n s
      → Moves wnd n s (move_loop fuel wnd s)
  unfolding move_loop
  move_loop-Moves zero wnd n s h f v = absurd (omega arith)
  move_loop-Moves (suc fuel) wnd n s h f v = elim (Option-cases (lookup s.nxt s.buf)) [
    | inl absent ↦ rw (absent, move_loop) (Moves-nothing wnd n s s refl v (inl absent))
    | inr (seg, found) ↦ elim (Bool-cases (leb wnd (length s.queue))) [
      | inl full ↦
          rw (found, full, move_loop)
            (Moves-nothing wnd n s _ refl (put_back wnd n s seg v found) (inr (leb→le _ _ full)))
      | inr room ↦
          rw (found, room, move_loop)
            (Moves-one wnd n s _ _ seg refl (leb→gt _ _ room) (found-IsNumber wnd n s seg h v found)
              (move_loop-Moves fuel wnd (suc n) _ h
                (omega (arith, length-erase s.nxt seg s.buf found)) (advance wnd n s _ v)))
    ]
  ]

  -- For a receive window of at most 2 ^ 31, move_to_recv_queue appends a run of the stream from
  -- the expected segment on to the queue and then expects the segment behind that run; it stops
  -- only where the next segment is missing or the queue has reached the window, and does not fill
  -- the queue beyond the window.
  pub move_to_recv_queue-Moves :
      (n : ℕ) (e : KcpEngine)
      → e.wnd.rcv ≤ 2 ^ 31
      → IsReceiving e.wnd.rcv n (recv_state e)
      → Moves e.wnd.rcv n (recv_state e) (recv_state (move_to_recv_queue e))
  unfolding move_to_recv_queue
  move_to_recv_queue-Moves n e h v =
      move_loop-Moves (suc (length e.rcv_buf)) e.wnd.rcv n (recv_state e) h
        (unfold recv_state in omega arith) v
