-- ===== src/Kcp/Actor/Induction/Steps.antt =====
-- kcp/actor.rs: what holds of an actor, if each step of a turn keeps it, holds after the turn.
use rust_kcp.Base.{
  ℕ, zero, suc, true, List, Option, none, some, min, ◌*◌, ◌-◌, ◌^◌, leb, ◌&&◌, ◌||◌, not,
  Bool-cases, inl, inr, ◌≡◌, refl, append-nil,
}
use rust_kcp.Error.{KcpCoreResult, ok, err}
use rust_kcp.Protocol.Wire.{ByteCodec}
use rust_kcp.Engine.{KcpEngine, has_unsent_data, idle_ms}
use rust_kcp.Engine.Send.{send}
use rust_kcp.Engine.Recv.{recv}
use rust_kcp.Engine.Input.{input}
use rust_kcp.Engine.Flush.{flush, update}
use rust_kcp.Kcp.Actor.{
  EngineCmd, cmd_flush, cmd_stats, cmd_is_alive, cmd_close, Settings, Clock, Actor, Turn, goes_on,
  breaks, then_do, Event, timer, command, packet, data_sent, drain_recv, with_engine, absorb,
  fatal_result, unless_fatal, is_past, flush_output, keep_alive, on_timer, begin_close, on_command,
  on_packet, on_data, branch, drain_check, turn, launch_actor, enabled,
}
use rust_kcp.Kcp.Actor.Induction.{
  Reach, started, later, Ends, after_read, fresh, Kept, closing_with, Takes,
}

module _ {ℓ} (codec : ByteCodec) (hash : ℕ → ℕ) (s : Settings) (P : Actor → Type ℓ)
    (k : Kept codec hash s P) where
  then_do_keeps :
      (x : Turn) (next : Actor → Turn)
      → Ends P x
      → ((a : Actor) → P a → Ends P (next a))
      → Ends P (then_do x next)
  then_do_keeps (goes_on a) next p f = f a p
  then_do_keeps (breaks a) next p f = p

  unless_fatal_keeps :
      (a : Actor) (x : KcpEngine × KcpCoreResult (Unit {0})) (next : Actor → Turn)
      → P (record a { engine = x.0 })
      → ((b : Actor) → P b → Ends P (next b))
      → Ends P (unless_fatal a x next)
  unless_fatal_keeps a (e, r) next p f = elim (Bool-cases (fatal_result r)) [
    | inl t ↦ rw t p
    | inr t ↦ rw t (f _ p)
  ]

  drain_recv_keeps : (room : ℕ) (a : Actor) → P a → P (drain_recv room a)
  unfolding drain_recv
  drain_recv_keeps zero a p = p
  drain_recv_keeps (suc room) a p =
      next (recv a.engine).1 refl (k.reads a p) (λ b q. drain_recv_keeps room b q)
    where
      next :
          (x : KcpCoreResult (Option (List ℕ)))
          → (recv a.engine).1 ≡ x
          → P (after_read a)
          → ((b : Actor) → P b → P (drain_recv room b))
          → P (drain_recv (suc room) a)
      next (ok (some msg)) h q rest = rw (h, drain_recv) (rest _ (rw (h, after_read) at q))
      next (ok none) h q rest = rw (h, drain_recv) (rw (h, after_read, append-nil a.forwarded) at q)
      next (err x) h q rest = rw (h, drain_recv) (rw (h, after_read, append-nil a.forwarded) at q)

  keep_alive_keeps :
      (t : Clock) (ka : Option ℕ) (a : Actor) → P a → Ends P (keep_alive codec hash s t ka a)
  unfolding keep_alive
  keep_alive_keeps t none a p = p
  keep_alive_keeps t (some ka) a p =
      let late = leb (min (ka * 3) (2 ^ 64 - 1)) (idle_ms (t.stamp 1) a.engine) in
      let due = leb ka (idle_ms (t.stamp 2) a.engine) && leb ka (t.instant 0 - a.last_probe) in
      elim (Bool-cases late) [
        | inl h ↦ rw h p
        | inr h ↦ elim (Bool-cases due) [
          | inl i ↦
              rw (h, i)
                (unless_fatal_keeps (record a { last_probe = t.instant 1 }) _ goes_on
                  (k.probes (t.stamp 3) _ (k.marks (t.instant 1) _ a p)) (λ b q. q))
          | inr i ↦ rw (h, i) p
        ]
      ]

  begin_close_keeps :
      (t : Clock) (queued : List (List ℕ)) (a : Actor)
      → P (closing_with codec hash s P t queued a)
      → P (begin_close codec hash s t queued a)
  unfolding begin_close
  begin_close_keeps t queued a p = k.drains _ (k.flushes (t.stamp 0) _ p)

  on_command_keeps :
      (t : Clock) (c : Option EngineCmd) (queued : List (List ℕ)) (a : Actor)
      → Takes codec hash s P t (command c queued) a
      → P a
      → P (on_command codec hash s t c queued a)
  unfolding on_command
  on_command_keeps t (some cmd_flush) queued a h p =
      k.marks _ _ _ (k.drains _ (k.flushes (t.stamp 0) a p))
  on_command_keeps t (some cmd_stats) queued a h p = k.marks _ _ a p
  on_command_keeps t (some cmd_is_alive) queued a h p = k.marks _ _ a p
  on_command_keeps t (some cmd_close) queued a h p = begin_close_keeps t queued a h
  on_command_keeps t none queued a h p = begin_close_keeps t queued a h

  pub branch_keeps :
      (t : Clock) (ev : Event) (a : Actor)
      → Takes codec hash s P t ev a
      → P a
      → Ends P (branch codec hash s t ev a)
  unfolding branch on_timer on_packet on_data
  branch_keeps t (timer room) a h p =
      let read : Actor → Turn = λ c. goes_on (drain_recv room (flush_output codec hash s c)) in
      unless_fatal_keeps a (flush codec (t.stamp 0) a.engine)
        (λ b. then_do (keep_alive codec hash s t s.keep_alive_ms b) read)
        (k.flushes (t.stamp 0) a p)
        λ b q.
          then_do_keeps (keep_alive codec hash s t s.keep_alive_ms b) read
            (keep_alive_keeps t s.keep_alive_ms b q) λ c r. drain_recv_keeps room _ (k.drains c r)
  branch_keeps t (command c queued) a h p = on_command_keeps t c queued a h p
  branch_keeps t (packet none room) a h p = p
  branch_keeps t (packet (some bytes) room) a h p =
      let e = (input codec (t.stamp 0) bytes a.engine).0 in
      unless_fatal_keeps (with_engine e a) (flush codec (t.stamp 1) e)
        (λ b. goes_on (drain_recv room (flush_output codec hash s b))) (k.flushes (t.stamp 1) _ h)
        λ b q. drain_recv_keeps room _ (k.drains b q)
  branch_keeps t (data_sent none queued) a h p = k.shuts a p
  branch_keeps t (data_sent (some bytes) queued) a h p =
      let e = (send (t.stamp 1) bytes a.engine).0 in
      unless_fatal_keeps a (flush codec (t.stamp 0) (absorb s.send_high_water t.stamp 2 queued e).0)
        (λ b. goes_on (flush_output codec hash s b)) (k.flushes (t.stamp 0) _ h) λ b q. k.drains b q

  pub turn_keeps :
      (t : Clock) (ev : Event) (a : Actor)
      → Takes codec hash s P t ev a
      → P a
      → Ends P (turn codec hash s t ev a)
  unfolding turn drain_check
  turn_keeps t ev a h p = then_do_keeps _ _ (branch_keeps t ev a h p) λ b q.
      elim (Bool-cases
        (b.closing && (not (has_unsent_data b.engine) || is_past (t.instant 2) b.close_deadline))) [
          | inl c ↦ rw c (k.drains _ (k.flushes (t.stamp 4) b q))
          | inr c ↦ rw c q
        ]

  launch_actor_keeps :
      (t : Clock) (room n : ℕ) (e : KcpEngine)
      → P (fresh n t (update codec (t.stamp 0) e).0)
      → P (launch_actor codec hash s t room n e)
  unfolding launch_actor
  launch_actor_keeps t room n e p = drain_recv_keeps room _ (k.drains _ p)

  -- It holds after each turn of a run, if it holds at the start and of what comes in.
  pub Reach-keeps :
      (Allowed : Clock → Event → Actor → Type 0)
      → ((t : Clock) (ev : Event) (a : Actor)
          → enabled s ev a ≡ true
          → Allowed t ev a
          → P a
          → Takes codec hash s P t ev a)
      → {n : ℕ} {e : KcpEngine} {x : Turn}
      → ((t : Clock) → P (fresh n t (update codec (t.stamp 0) e).0))
      → Reach codec hash s Allowed n e x
      → Ends P x
  Reach-keeps Allowed takes {n} {e} p (started t room) = launch_actor_keeps t room n e (p t)
  Reach-keeps Allowed takes p (later t ev {a} r on allowed) =
      let q = Reach-keeps Allowed takes p r in turn_keeps t ev a (takes t ev a on allowed q) q
