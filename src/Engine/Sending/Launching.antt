-- ===== src/Engine/Sending/Launching.antt =====
-- `move_to_send_buf` (kcp-core/src/engine.rs): each queued payload gets the next number.
use rust_kcp.Base.{
  ℕ, ◌≡◌, refl, sym, ap, ◌∙◌, subst, arith, inl, inr, List, [], ◌∷◌, ◌++◌, append_assoc, append-nil,
  length, length-append, u32, add32, All, All-append, Bool-cases, is_neg, concat, map, take, suc,
  ◌-◌, ◌≤◌,
}
use rust_kcp.Protocol.{KcpSegment}
use rust_kcp.Protocol.Seq.{time_diff}
use rust_kcp.Protocol.Wire.{ByteCodec}
use rust_kcp.Engine.{KcpEngine}
use rust_kcp.Engine.Payloads.{payloads}
use rust_kcp.Engine.SendBuf.{SendState, send_window, launch, launch_loop, move_to_send_buf}
use rust_kcp.Engine.Sending.{
  IsLogged, IsLogged-more, HasLength, get_elem?-last, All-more, KeepsLog, IsOwn-more,
}

-- The payloads that have left a queue from its front
abbrev pub front_of : List KcpSegment → List KcpSegment → List (List ℕ)
front_of queue left = map (λ seg. seg.payload) (take (length queue - length left) queue)

pub front_of_self : (queue : List KcpSegment) → front_of queue queue ≡ []
front_of_self queue = let z : length queue - length queue ≡ 0 = omega arith in rw z refl

front_of_more :
    (seg : KcpSegment) (queue left : List KcpSegment)
    → length left ≤ length queue
    → front_of (seg ∷ queue) left ≡ seg.payload ∷ front_of queue left
front_of_more seg queue left h =
    let z : suc (length queue) - length left ≡ suc (length queue - length left) = omega arith in
    rw z refl

-- The payloads that the loop takes off the queue join the numbered ones.
pub record IsLaunched (log : List (List ℕ)) (queue : List KcpSegment) (s : SendState) : Type 0 where
  pub taken : List (List ℕ)
  pub is_front : taken ≡ front_of queue s.queue
  pub shorter : length s.queue ≤ length queue
  pub moved : payloads queue ≡ concat taken ++ payloads s.queue
  pub next : s.nxt ≡ u32 (length (log ++ taken))
  pub in_flight : All (IsLogged (log ++ taken)) s.buf
  pub lengths : All HasLength s.queue

stays :
    (log : List (List ℕ)) (queue buf : List KcpSegment) (nxt : ℕ)
    → nxt ≡ u32 (length log)
    → All (IsLogged log) buf
    → All HasLength queue
    → IsLaunched log queue (record { queue = queue; buf = buf; nxt = nxt })
stays log queue buf nxt n f h =
    let z = sym (append-nil log) in
    record {
      taken = [];
      is_front = sym (front_of_self queue);
      shorter = omega arith;
      moved = refl;
      next = n ∙ ap (λ l. u32 (length l)) z;
      in_flight = subst (λ l. All (IsLogged l) buf) z f;
      lengths = h;
    }

one_more :
    (log : List (List ℕ)) (seg : KcpSegment) (queue : List KcpSegment) (s : SendState)
    → IsLaunched (log ++ seg.payload ∷ []) queue s
    → IsLaunched log (seg ∷ queue) s
one_more log seg queue s v =
    let z = append_assoc log (seg.payload ∷ []) v.taken in
    record {
      taken = seg.payload ∷ v.taken;
      is_front = ap (◌∷◌ seg.payload) v.is_front ∙ sym (front_of_more seg queue s.queue v.shorter);
      shorter = omega (arith, v.shorter);
      moved =
          ap (◌++◌ seg.payload) v.moved
          ∙ sym (append_assoc seg.payload (concat v.taken) (payloads s.queue));
      next = v.next ∙ ap (λ l. u32 (length l)) z;
      in_flight = subst (λ l. All (IsLogged l) s.buf) z v.in_flight;
      lengths = v.lengths;
    }

launch-IsLogged :
    (current : ℕ) (e : KcpEngine) (nxt : ℕ) (seg : KcpSegment) (log : List (List ℕ))
    → nxt ≡ u32 (length log)
    → HasLength seg
    → IsLogged (log ++ seg.payload ∷ []) (launch current e nxt seg)
unfolding launch
launch-IsLogged current e nxt seg log n h = (length log, n, get_elem?-last log seg.payload, h, refl)

launch_loop-IsLaunched :
    (current : ℕ) (e : KcpEngine) (limit : ℕ) (queue buf : List KcpSegment) (nxt : ℕ)
    (log : List (List ℕ))
    → nxt ≡ u32 (length log)
    → All (IsLogged log) buf
    → All HasLength queue
    → IsLaunched log queue (launch_loop current e limit queue buf nxt)
unfolding launch_loop
launch_loop-IsLaunched current e limit [] buf nxt log n f h = stays log [] buf nxt n f h
launch_loop-IsLaunched current e limit (seg ∷ queue) buf nxt log n f h =
    elim (Bool-cases (is_neg (time_diff nxt limit))) [
      | inr full ↦ rw (full, launch_loop) (stays log (seg ∷ queue) buf nxt n f h)
      | inl room ↦
          let log' = log ++ seg.payload ∷ [] in
          rw (room, launch_loop)
            (one_more log seg queue _ (
              launch_loop-IsLaunched current e limit queue _ (add32 nxt 1) log'
                (omega (arith, n, length-append log (seg.payload ∷ [])))
                (All-append _ buf _ (All-more _ _ buf (IsLogged-more log (seg.payload ∷ [])) f)
                  (launch-IsLogged current e nxt seg log n h.0, tt))
                h.1))
    ]

module _ (codec : ByteCodec) where
  -- The engine numbers payloads off the front of the queue.
  pub record ExtendsLog (log : List (List ℕ)) (queue : List KcpSegment) (e : KcpEngine)
      : Type 0 where
    pub taken : List (List ℕ)
    pub is_front : taken ≡ front_of queue e.snd_queue
    pub moved : payloads queue ≡ concat taken ++ payloads e.snd_queue
    pub sending : KeepsLog codec (log ++ taken) e.snd_queue e

  pub move_to_send_buf-ExtendsLog :
      {log : List (List ℕ)} {queue : List KcpSegment} (current : ℕ) (e : KcpEngine)
      → KeepsLog codec log queue e
      → ExtendsLog log queue (move_to_send_buf current e)
  unfolding move_to_send_buf
  move_to_send_buf-ExtendsLog {log} {queue} current e v =
      let s =
        launch_loop current e (add32 e.snd_una (send_window e)) e.snd_queue e.snd_buf e.snd_nxt in
      let m : IsLaunched log e.snd_queue s =
        launch_loop-IsLaunched current e (add32 e.snd_una (send_window e)) e.snd_queue e.snd_buf
          e.snd_nxt log v.next v.in_flight v.lengths in
      record {
        taken = m.taken;
        is_front = m.is_front ∙ ap (λ q. front_of q s.queue) v.waiting;
        moved = ap payloads (sym v.waiting) ∙ m.moved;
        sending = record {
          waiting = refl;
          lengths = m.lengths;
          next = m.next;
          in_flight = m.in_flight;
          pending = IsOwn-more codec log m.taken e.out_buf v.pending;
          queued = All-more _ _ e.output_queue (IsOwn-more codec log m.taken) v.queued;
        };
      }
