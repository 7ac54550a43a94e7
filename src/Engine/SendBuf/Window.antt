-- ===== src/Engine/SendBuf/Window.antt =====
-- `move_to_send_buf` (kcp-core/src/engine.rs): order, numbers and the window.
use rust_kcp.Base.{
  ℕ, suc, ◌+◌, ◌≤◌, ◌<◌, ◌^◌, ◌≡◌, refl, sym, ap, ◌∙◌, subst, arith, max, List, [], ◌∷◌, ◌++◌,
  append_assoc, append-nil, length, u32, add32, Bool-cases, inl, inr, ◌⊎◌, is_neg, ltb, ltb→lt,
  ltb→ge,
}
use mathlib.Core.Path.{subst₂}
use rust_kcp.Protocol.{KcpSegment}
use rust_kcp.Protocol.Seq.{time_diff}
use rust_kcp.Engine.{KcpEngine}
use rust_kcp.Engine.Payloads.{payloads, payloads-append}
use rust_kcp.Engine.SendBuf.{SendState, send_window, launch, launch_loop, move_to_send_buf}
use rust_kcp.Engine.Ack.InFlight.{Numbered, Numbered-mono, IsSending}

-- What the loop launches: segments of the queue's front, with the numbers from `m` on.
abbrev pub launched : ℕ → KcpEngine → ℕ → List KcpSegment → List KcpSegment
launched current e m [] = []
launched current e m (seg ∷ segs) = launch current e (u32 m) seg ∷ launched current e (suc m) segs

-- The loop splits the queue: `front` goes in flight, under the next numbers and behind what is in
-- flight, up to the limit, and the rest stays.
pub record Launches (current : ℕ) (e : KcpEngine) (limit m : ℕ) (queue buf : List KcpSegment)
    (s : SendState) : Type 0 where
  pub front : List KcpSegment
  pub split : queue ≡ front ++ s.queue
  pub buffer : s.buf ≡ buf ++ launched current e m front
  pub number : s.nxt ≡ u32 (m + length front)
  pub below : m + length front ≤ max m limit
  pub complete : (s.queue ≡ []) ⊎ (limit ≤ m + length front)

before-ltb :
    (m limit : ℕ)
    → m < limit + 2 ^ 31
    → limit < m + 2 ^ 31
    → is_neg (time_diff (u32 m) (u32 limit)) ≡ ltb m limit
unfolding time_diff
before-ltb m limit h k = ground arith

Launches-one :
    (current : ℕ) (e : KcpEngine) (limit m : ℕ) (seg : KcpSegment) (queue buf : List KcpSegment)
    (s : SendState)
    → m < limit
    → Launches current e limit (suc m) queue (buf ++ launch current e (u32 m) seg ∷ []) s
    → Launches current e limit m (seg ∷ queue) buf s
Launches-one current e limit m seg queue buf s h l =
    let z : suc m + length l.front ≡ m + suc (length l.front) = omega arith in
    record {
      front = seg ∷ l.front;
      split = ap (◌∷◌ seg) l.split;
      buffer = l.buffer ∙ append_assoc buf (launch current e (u32 m) seg ∷ []) _;
      number = l.number ∙ ap u32 z;
      below = omega (arith, l.below);
      complete = elim l.complete [ inl all ↦ inl all | inr full ↦ inr (omega arith) ];
    }

launch_loop-Launches :
    (current : ℕ) (e : KcpEngine) (limit m : ℕ) (queue buf : List KcpSegment)
    → m < limit + 2 ^ 31
    → limit < m + 2 ^ 31
    → Launches current e limit m queue buf (launch_loop current e (u32 limit) queue buf (u32 m))
unfolding launch_loop
launch_loop-Launches current e limit m [] buf h k = record {
  front = [];
  split = refl;
  buffer = sym (append-nil buf);
  number = omega arith;
  below = omega arith;
  complete = inl refl;
}
launch_loop-Launches current e limit m (seg ∷ queue) buf h k = elim (Bool-cases (ltb m limit)) [
  | inl room ↦
      let z : add32 (u32 m) 1 ≡ u32 (suc m) = omega arith in
      let lt = ltb→lt _ _ room in
      rw (before-ltb m limit h k ∙ room, z, launch_loop)
        (Launches-one current e limit m seg queue buf _ lt (
          launch_loop-Launches current e limit (suc m) queue
            (buf ++ launch current e (u32 m) seg ∷ []) (omega arith) (omega arith)))
  | inr full ↦
      rw (before-ltb m limit h k ∙ full, launch_loop)
        (record {
          front = [];
          split = refl;
          buffer = sym (append-nil buf);
          number = omega arith;
          below = omega arith;
          complete = inr (omega (arith, ltb→ge _ _ full));
        })
]

launched-Numbered :
    (current : ℕ) (e : KcpEngine) (m : ℕ) (segs : List KcpSegment)
    → Numbered m (m + length segs) (launched current e m segs)
unfolding launch
launched-Numbered current e m [] = tt
launched-Numbered current e m (seg ∷ segs) =
    let z : suc m + length segs ≡ m + suc (length segs) = omega arith in
    (
      m,
      refl,
      omega arith,
      omega arith,
      subst (λ k. Numbered (suc m) k (launched current e (suc m) segs)) z
          (launched-Numbered current e (suc m) segs),
    )

Numbered-append :
    (lo m hi : ℕ) (xs ys : List KcpSegment)
    → lo ≤ m
    → m ≤ hi
    → Numbered lo m xs
    → Numbered m hi ys
    → Numbered lo hi (xs ++ ys)
Numbered-append lo m hi [] ys l h n k = Numbered-mono m lo hi ys l k
Numbered-append lo m hi (x ∷ xs) ys l h (a, e, la, am, n) k =
    (a, e, la, omega arith, Numbered-append (suc a) m hi xs ys am h n k)

payloads-launched :
    (current : ℕ) (e : KcpEngine) (m : ℕ) (segs : List KcpSegment)
    → payloads (launched current e m segs) ≡ payloads segs
unfolding launch
payloads-launched current e m [] = refl
payloads-launched current e m (seg ∷ segs) =
    ap (◌++◌ seg.payload) (payloads-launched current e (suc m) segs)

payloads-Launches :
    (current : ℕ) (e : KcpEngine) (limit m : ℕ) (queue buf : List KcpSegment) (s : SendState)
    → Launches current e limit m queue buf s
    → payloads s.buf ++ payloads s.queue ≡ payloads buf ++ payloads queue
payloads-Launches current e limit m queue buf s l =
    ap (λ xs. payloads xs ++ payloads s.queue) l.buffer
    ∙ ap (λ bs. bs ++ payloads s.queue) (payloads-append buf (launched current e m l.front))
    ∙ append_assoc (payloads buf) (payloads (launched current e m l.front)) (payloads s.queue)
    ∙ ap (λ bs. payloads buf ++ (bs ++ payloads s.queue)) (payloads-launched current e m l.front)
    ∙ ap (◌++◌ (payloads buf)) (sym (payloads-append l.front s.queue))
    ∙ ap (λ xs. payloads buf ++ payloads xs) (sym l.split)

-- For a window of at most 2 ^ 30 and segments in flight under ascending numbers, move_to_send_buf
-- puts the front of the send queue in flight under the next numbers, as many segments as there are
-- or as the window has room for behind snd_una; the send side stays well formed and no byte of the
-- data is lost or reordered.
pub move_to_send_buf-Launches :
    (current u m : ℕ) (e : KcpEngine)
    → IsSending u m e
    → send_window e ≤ 2 ^ 30
    → let e' = move_to_send_buf current e in
      (l : Launches current e
        (u + send_window e)
        m
        e.snd_queue
        e.snd_buf
        (record { queue = e'.snd_queue; buf = e'.snd_buf; nxt = e'.snd_nxt }))
      × IsSending u (m + length l.front) e'
      × (payloads e'.snd_buf ++ payloads e'.snd_queue ≡ payloads e.snd_buf ++ payloads e.snd_queue)
unfolding move_to_send_buf
move_to_send_buf-Launches current u m e s h =
    let w = send_window e in
    let z : add32 e.snd_una w ≡ u32 (u + w) = omega (arith, s.oldest) in
    let at_numbers : Launches current e (u + w) m e.snd_queue e.snd_buf
        (launch_loop current e (u32 (u + w)) e.snd_queue e.snd_buf (u32 m)) =
      launch_loop-Launches current e (u + w) m e.snd_queue e.snd_buf (omega (arith, s.span))
        (omega (arith, s.ordered)) in
    let l : Launches current e (u + w) m e.snd_queue e.snd_buf
        (launch_loop current e (add32 e.snd_una w) e.snd_queue e.snd_buf e.snd_nxt) =
      subst₂
        (λ x y.
          Launches current e (u + w) m e.snd_queue e.snd_buf
            (launch_loop current e x e.snd_queue e.snd_buf y))
        (sym z) (sym s.next) at_numbers in
    (
      l,
      record {
        oldest = s.oldest;
        next = l.number;
        ordered = omega (arith, s.ordered);
        span = omega (arith, s.span, l.below);
        numbered = subst (Numbered u (m + length l.front)) (sym l.buffer) (
            Numbered-append u m (m + length l.front) e.snd_buf _ s.ordered (omega arith) s.numbered
              (launched-Numbered current e m l.front));
      },
      payloads-Launches current e (u + w) m e.snd_queue e.snd_buf _ l,
    )
