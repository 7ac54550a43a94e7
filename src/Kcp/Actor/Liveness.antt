-- ===== src/Kcp/Actor/Liveness.antt =====
-- kcp/actor.rs: the timer branch finds a peer that is gone.
use rust_kcp.Base.{
  ℕ, ◌<◌, ◌++◌, ◌∙◌, ap, List, [], ◌∷◌, All, none, false, is_pos, nonneg_part, ◌*◌, ◌-◌, ◌^◌, ◌≤◌,
  ◌≡◌, refl, arith, min, max, true, some, leb, Bool-cases, inl, inr, subst, leb, ◌&&◌,
}
use rust_kcp.Protocol.Wire.{ByteCodec}
use rust_kcp.Protocol.{KcpSegment}
use rust_kcp.Engine.{KcpEngine, idle_ms, drain_output}
use rust_kcp.Engine.Recv.{recv, deliver, move_to_recv_queue, ask_tell, assemble, peek_size}
use rust_kcp.Engine.Flush.{flush, keep_alive_probe}
use rust_kcp.Engine.Flush.Leaves.{flush-Leaves, keep_alive_probe-Leaves}
use rust_kcp.Kcp.Actor.{
  Settings, Clock, Actor, breaks, timer, fatal_result, wait, keep_alive, on_timer, branch, turn,
  Event, cmd_flush, cmd_stats, cmd_is_alive, cmd_close, command, packet, data_sent, Turn, goes_on,
  flush_output, drain_check,
}
use rust_kcp.Kcp.Actor.Closing.{HasStopped, run, run-breaks}
use rust_kcp.Kcp.Actor.Induction.{Kept, Takes, Ends}
use rust_kcp.Kcp.Actor.Induction.Steps.{turn_keeps, branch_keeps}
use rust_kcp.Kcp.Actor.Wire.{transmit_leaves}

module _ (codec : ByteCodec) (hash : ℕ → ℕ) (s : Settings) where
  keep_alive_stops :
      (t : Clock) (ka : ℕ) (a : Actor)
      → min (ka * 3) (2 ^ 64 - 1) ≤ idle_ms (t.stamp 1) a.engine
      → keep_alive codec hash s t (some ka) a ≡ breaks a
  unfolding keep_alive
  keep_alive_stops t ka a h =
      let late : leb (min (ka * 3) (2 ^ 64 - 1)) (idle_ms (t.stamp 1) a.engine) ≡ true =
        ground arith in
      rw late refl

  on_timer_stops :
      (t : Clock) (room ka : ℕ) (a : Actor)
      → s.keep_alive_ms ≡ some ka
      → min (ka * 3) (2 ^ 64 - 1) ≤ idle_ms (t.stamp 1) a.engine
      → (b : Actor) × (on_timer codec hash s t room a ≡ breaks b)
  unfolding on_timer idle_ms keep_alive
  on_timer_stops t room ka a k h =
      let x = flush codec (t.stamp 0) a.engine in
      let b = record a { engine = x.0 } in
      let still = (flush-Leaves codec (t.stamp 0) a.engine).active in
      let gone : keep_alive codec hash s t (some ka) b ≡ breaks b =
        keep_alive_stops t ka b (unfold idle_ms in rw still h) in
      elim (Bool-cases (fatal_result x.1)) [
        | inl f ↦ rw f (b, refl)
        | inr f ↦ rw (f, k, gone) (b, refl)
      ]

  -- A turn keeps the time of the last activity unless something comes in.
  recv_active : (e : KcpEngine) → (recv e).0.last_activity ≡ e.last_activity
  unfolding recv deliver move_to_recv_queue ask_tell
  recv_active e = elim (Bool-cases (is_pos (peek_size e.rcv_queue))) [
    | inr t ↦ rw (t, recv) refl
    | inl t ↦
        let (bytes, queue) = assemble (nonneg_part (peek_size e.rcv_queue)) [] e.rcv_queue in
        rw (t, recv) (deliver_active e bytes queue)
  ]
    where
      deliver_active :
          (e : KcpEngine) (bytes : List ℕ) (queue : List KcpSegment)
          → (deliver e bytes queue).0.last_activity ≡ e.last_activity
      deliver_active e [] queue = refl
      deliver_active e (b ∷ bs) queue = ground arith

  abbrev IsActive : ℕ → Actor → Type 0
  IsActive w a = a.engine.last_activity ≡ w

  IsActive-Kept : (w : ℕ) → Kept codec hash s (IsActive w)
  unfolding flush_output drain_output
  IsActive-Kept w = record {
    flushes = λ now a v. (flush-Leaves codec now a.engine).active ∙ v;
    probes = λ now a v. (keep_alive_probe-Leaves codec now a.engine).active ∙ v;
    reads = λ a v. recv_active a.engine ∙ v;
    drains = λ a v.
        let (e, control) =
          transmit_leaves codec hash s s.simulate_loss a.engine.output_queue
            (record a { engine = (drain_output a.engine).0 }) in
        ap (λ (x : KcpEngine). x.last_activity) e ∙ v;
    marks = λ probe rs a v. v;
    shuts = λ a v. v;
  }

  -- Nothing comes in: the timer fires, or the user flushes or asks.
  abbrev pub IsQuiet : Event → Type 0
  IsQuiet (timer room) = Unit
  IsQuiet (command (some cmd_flush) queued) = Unit
  IsQuiet (command (some cmd_stats) queued) = Unit
  IsQuiet (command (some cmd_is_alive) queued) = Unit
  IsQuiet (command (some cmd_close) queued) = ⊥
  IsQuiet (command none queued) = ⊥
  IsQuiet (packet p room) = ⊥
  IsQuiet (data_sent bytes queued) = ⊥

  IsQuiet-Takes :
      (w : ℕ) (t : Clock) (ev : Event) (a : Actor)
      → IsQuiet ev
      → Takes codec hash s (IsActive w) t ev a
  IsQuiet-Takes w t (timer room) a q = tt
  IsQuiet-Takes w t (command (some cmd_flush) queued) a q = tt
  IsQuiet-Takes w t (command (some cmd_stats) queued) a q = tt
  IsQuiet-Takes w t (command (some cmd_is_alive) queued) a q = tt
  IsQuiet-Takes w t (command (some cmd_close) queued) a q = absurd q
  IsQuiet-Takes w t (command none queued) a q = absurd q
  IsQuiet-Takes w t (packet p room) a q = absurd q
  IsQuiet-Takes w t (data_sent bytes queued) a q = absurd q

  quiet_run_stops :
      (w ka : ℕ) (t : Clock) (room : ℕ) (turns : List (Clock × Event)) (x : Turn)
      → s.keep_alive_ms ≡ some ka
      → All (λ (y : Clock × Event). IsQuiet y.1) turns
      → min (ka * 3) (2 ^ 64 - 1) ≤ t.stamp 1 - w
      → Ends (IsActive w) x
      → HasStopped (run codec hash s (turns ++ (t, timer room) ∷ []) x)
  unfolding run turn branch idle_ms
  quiet_run_stops w ka t room turns (breaks a) k q late v = run-breaks codec hash s _ a
  quiet_run_stops w ka t room [] (goes_on a) k q late v =
      let (b, z) = on_timer_stops t room ka a k (rw v late) in rw z tt
  quiet_run_stops w ka t room ((t1, ev) ∷ turns) (goes_on a) k q late v =
      quiet_run_stops w ka t room turns (turn codec hash s t1 ev a) k q.1 late (
        turn_keeps codec hash s (IsActive w) (IsActive-Kept w) t1 ev a (IsQuiet-Takes w t1 ev a q.0)
          v)

  -- No call of the turn's flushes is fatal.
  abbrev pub FlushesWell : Clock → Actor → Type 0
  FlushesWell t a =
      let (e, r) = flush codec (t.stamp 0) a.engine in
      (fatal_result r ≡ false) × (fatal_result (keep_alive_probe codec (t.stamp 3) e).1 ≡ false)

  IsOpen-Kept : Kept codec hash s (λ a. a.closing ≡ false)
  unfolding flush_output drain_output
  IsOpen-Kept = record {
    flushes = λ now a v. v;
    probes = λ now a v. v;
    reads = λ a v. v;
    drains = λ a v.
        let (e, (l, sc, c, u)) =
          transmit_leaves codec hash s s.simulate_loss a.engine.output_queue
            (record a { engine = (drain_output a.engine).0 }) in
        c ∙ v;
    marks = λ probe rs a v. v;
    shuts = λ a v. v;
  }

  keep_alive_goes_on :
      (t : Clock) (ka : ℕ) (a : Actor)
      → idle_ms (t.stamp 1) a.engine < min (ka * 3) (2 ^ 64 - 1)
      → fatal_result (keep_alive_probe codec (t.stamp 3) a.engine).1 ≡ false
      → (b : Actor) × (keep_alive codec hash s t (some ka) a ≡ goes_on b)
  unfolding keep_alive
  keep_alive_goes_on t ka a h w =
      let early : leb (min (ka * 3) (2 ^ 64 - 1)) (idle_ms (t.stamp 1) a.engine) ≡ false =
        ground arith in
      elim (Bool-cases
        (leb ka (idle_ms (t.stamp 2) a.engine) && leb ka (t.instant 0 - a.last_probe))) [
          | inl due ↦ rw (early, due, w) (_, refl)
          | inr not_due ↦ rw (early, not_due) (_, refl)
        ]

  on_timer_goes_on :
      (t : Clock) (room ka : ℕ) (a : Actor)
      → s.keep_alive_ms ≡ some ka
      → idle_ms (t.stamp 1) a.engine < min (ka * 3) (2 ^ 64 - 1)
      → FlushesWell t a
      → (b : Actor) × (on_timer codec hash s t room a ≡ goes_on b)
  unfolding on_timer idle_ms keep_alive
  on_timer_goes_on t room ka a k h (f, w) =
      let b = record a { engine = (flush codec (t.stamp 0) a.engine).0 } in
      let still = (flush-Leaves codec (t.stamp 0) a.engine).active in
      let (c, z) = keep_alive_goes_on t ka b (unfold idle_ms in rw still h) w in
      rw (f, k, z) (_, refl)

  timer_turn_goes_on :
      (t : Clock) (room ka : ℕ) (a : Actor)
      → s.keep_alive_ms ≡ some ka
      → idle_ms (t.stamp 1) a.engine < min (ka * 3) (2 ^ 64 - 1)
      → FlushesWell t a
      → a.closing ≡ false
      → HasStopped (turn codec hash s t (timer room) a)
      → ⊥
  unfolding turn branch drain_check
  timer_turn_goes_on t room ka a k h w c stopped =
      let (b, z) = on_timer_goes_on t room ka a k h w in
      let open_b : b.closing ≡ false =
        subst (Ends (λ (x : Actor). x.closing ≡ false)) z
          (branch_keeps codec hash s (λ x. x.closing ≡ false) IsOpen-Kept t (timer room) a tt c) in
      rw (z, open_b) at stopped

  -- With a keep-alive interval, of which three make the limit (saturated at 2 ^ 64 - 1): after any
  -- row of turns in which nothing comes in, a turn in which the timer fires once the peer has been
  -- silent for the limit, counted from the engine's last activity before these turns, leaves the
  -- actor stopped, if it has not stopped before. And an actor is not stopped early: a turn in
  -- which the timer fires before the engine has been idle for the limit does not stop it, unless
  -- it is closing, or the turn's flush or that of a probe behind it would fail fatally. The wait
  -- before a turn is at least 1 ms and at most the larger of the interval, the update interval and
  -- 1 ms.
  pub silent_peer_stops :
      (turns : List (Clock × Event)) (t : Clock) (now room ka : ℕ) (a : Actor)
      → s.keep_alive_ms ≡ some ka
      → All (λ (y : Clock × Event). IsQuiet y.1) turns
      → let limit = min (ka * 3) (2 ^ 64 - 1) in
        let idle = t.stamp 1 - a.engine.last_activity in
        (limit ≤ idle → HasStopped (run codec hash s (turns ++ (t, timer room) ∷ []) (goes_on a)))
        × (idle < limit
            → FlushesWell t a
            → a.closing ≡ false
            → HasStopped (turn codec hash s t (timer room) a)
            → ⊥)
        × (1 ≤ wait s now a.engine)
        × (wait s now a.engine ≤ max ka (max s.update_interval_ms 1))
  unfolding wait idle_ms
  silent_peer_stops turns t now room ka a k q = (
    λ late. quiet_run_stops a.engine.last_activity ka t room turns (goes_on a) k q late refl,
    λ early w c. timer_turn_goes_on t room ka a k (unfold idle_ms in early) w c,
    rw k (omega arith),
    rw k (omega arith),
  )
