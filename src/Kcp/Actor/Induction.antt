-- ===== src/Kcp/Actor/Induction.antt =====
-- kcp/actor.rs: the runs of the loop, and what the steps of a turn must keep for a turn to keep it.
pub mod Steps
use rust_kcp.Base.{
  ℕ, ◌+◌, zero, suc, Bool, true, false, List, [], ◌∷◌, ◌++◌, Option, none, some, min, ◌*◌, ◌-◌, ◌^◌,
  leb, ltb, ◌&&◌, ◌||◌, not, Bool-cases, inl, inr, ◌≡◌, refl, append-nil,
}
use rust_kcp.Error.{KcpCoreResult, ok, err}
use rust_kcp.Protocol.Wire.{ByteCodec}
use rust_kcp.Engine.{KcpEngine, send_queue_len, has_unsent_data, idle_ms}
use rust_kcp.Engine.Send.{send}
use rust_kcp.Engine.Recv.{recv}
use rust_kcp.Engine.Input.{input}
use rust_kcp.Engine.Flush.{flush, update, keep_alive_probe}
use rust_kcp.Kcp.Actor.{
  EngineCmd, cmd_flush, cmd_stats, cmd_is_alive, cmd_close, Reply, Settings, Clock, Actor, Turn,
  goes_on, breaks, then_do, Event, timer, command, packet, data_sent, drain_recv, with_engine,
  send_all, absorb, fatal_result, unless_fatal, is_past, flush_output, keep_alive, on_timer,
  begin_close, on_command, on_packet, on_data, branch, drain_check, turn, launch_actor, enabled,
}

-- A run from an engine that has taken `n` segments, up to the end of a turn; `Allowed` is what the
-- branches may be given.
module _ (codec : ByteCodec) (hash : ℕ → ℕ) (s : Settings)
    (Allowed : Clock → Event → Actor → Type 0) where
  pub data Reach (n : ℕ) (e : KcpEngine) : Turn → Type 0 where
    started : (t : Clock) (room : ℕ) → Reach n e (goes_on (launch_actor codec hash s t room n e))
    later :
        (t : Clock) (ev : Event) {a : Actor}
        → Reach n e (goes_on a)
        → enabled s ev a ≡ true
        → Allowed t ev a
        → Reach n e (turn codec hash s t ev a)

-- However the turn ends
abbrev pub Ends {ℓ} : (Actor → Type ℓ) → Turn → Type ℓ
Ends P (goes_on a) = P a
Ends P (breaks a) = P a

abbrev pub messages : KcpCoreResult (Option (List ℕ)) → List (List ℕ)
messages (ok (some msg)) = msg ∷ []
messages (ok none) = []
messages (err x) = []

-- One step of `drain_recv`
abbrev pub after_read : Actor → Actor
after_read a =
    let (e, r) = recv a.engine in
    let b = with_engine e a in record b { forwarded = a.forwarded ++ messages r }

-- The flags once a close has begun
abbrev pub closing_at : ℕ → Actor → Actor
closing_at now a = record a {
  send_closed = true;
  closing = true;
  close_deadline = some (now + 10000);
}

-- What `launch_actor` starts from
abbrev pub fresh : ℕ → Clock → KcpEngine → Actor
fresh n t e = record {
  engine = e;
  position = n;
  last_probe = t.instant 0;
  send_closed = false;
  closing = false;
  close_deadline = none;
  wire = [];
  drawn = 0;
  forwarded = [];
  replies = [];
}

module _ {ℓ} (codec : ByteCodec) (hash : ℕ → ℕ) (s : Settings) (P : Actor → Type ℓ) where
  pub record Kept : Type ℓ where
    pub flushes :
        (now : ℕ) (a : Actor) → P a → P (record a { engine = (flush codec now a.engine).0 })
    pub probes :
        (now : ℕ) (a : Actor)
        → P a
        → P (record a { engine = (keep_alive_probe codec now a.engine).0 })
    pub reads : (a : Actor) → P a → P (after_read a)
    pub drains : (a : Actor) → P a → P (flush_output codec hash s a)
    pub marks :
        (probe : ℕ) (rs : List Reply) (a : Actor)
        → P a
        → P (record a { last_probe = probe; replies = rs })
    pub shuts : (a : Actor) → P a → P (record a { send_closed = true })

  -- What a packet that comes in must keep
  abbrev pub Comes : Clock → Event → Actor → Type ℓ
  Comes t (timer room) a = Unit
  Comes t (command c queued) a = Unit
  Comes t (packet none room) a = Unit
  Comes t (packet (some bytes) room) a =
      P (with_engine (input codec (t.stamp 0) bytes a.engine).0 a)
  Comes t (data_sent bytes queued) a = Unit

  -- The actor once its engine has the messages of a close, or of the data branch
  abbrev pub closing_with : Clock → List (List ℕ) → Actor → Actor
  closing_with t queued a =
      closing_at (t.instant 0) (record a { engine = send_all t.stamp 1 queued a.engine })

  abbrev pub filled_with : Clock → List ℕ → List (List ℕ) → Actor → Actor
  filled_with t bytes queued a =
      let e = (send (t.stamp 1) bytes a.engine).0 in
      record a { engine = (absorb s.send_high_water t.stamp 2 queued e).0 }

  -- What anything that comes in, a packet or a message, must keep
  abbrev pub Takes : Clock → Event → Actor → Type ℓ
  Takes t (timer room) a = Unit
  Takes t (command (some cmd_flush) queued) a = Unit
  Takes t (command (some cmd_stats) queued) a = Unit
  Takes t (command (some cmd_is_alive) queued) a = Unit
  Takes t (command (some cmd_close) queued) a = P (closing_with t queued a)
  Takes t (command none queued) a = P (closing_with t queued a)
  Takes t (packet none room) a = Unit
  Takes t (packet (some bytes) room) a =
      P (with_engine (input codec (t.stamp 0) bytes a.engine).0 a)
  Takes t (data_sent none queued) a = Unit
  Takes t (data_sent (some bytes) queued) a = P (filled_with t bytes queued a)

  -- When any call of `send` keeps it, only the packets matter.
  module _
      (sends : (now : ℕ) (m : List ℕ) (a : Actor)
        → P a
        → P (record a { engine = (send now m a.engine).0 }))
      (closes : (now : ℕ) (a : Actor) → P a → P (closing_at now a)) where
    send_all_keeps :
        (stamp : ℕ → ℕ) (i : ℕ) (ms : List (List ℕ)) (a : Actor)
        → P a
        → P (record a { engine = send_all stamp i ms a.engine })
    unfolding send_all
    send_all_keeps stamp i [] a p = p
    send_all_keeps stamp i (m ∷ ms) a p = send_all_keeps stamp (suc i) ms _ (sends (stamp i) m a p)

    absorb_keeps :
        (high : ℕ) (stamp : ℕ → ℕ) (i : ℕ) (ms : List (List ℕ)) (a : Actor)
        → P a
        → P (record a { engine = (absorb high stamp i ms a.engine).0 })
    unfolding absorb
    absorb_keeps high stamp i [] a p = p
    absorb_keeps high stamp i (m ∷ ms) a p =
        elim (Bool-cases (ltb (send_queue_len a.engine) high)) [
          | inl t ↦ rw t (absorb_keeps high stamp (suc i) ms _ (sends (stamp i) m a p))
          | inr t ↦ rw t p
        ]

    pub Comes-Takes : (t : Clock) (ev : Event) (a : Actor) → P a → Comes t ev a → Takes t ev a
    Comes-Takes t (timer room) a p h = tt
    Comes-Takes t (command (some cmd_flush) queued) a p h = tt
    Comes-Takes t (command (some cmd_stats) queued) a p h = tt
    Comes-Takes t (command (some cmd_is_alive) queued) a p h = tt
    Comes-Takes t (command (some cmd_close) queued) a p h =
        closes (t.instant 0) _ (send_all_keeps t.stamp 1 queued a p)
    Comes-Takes t (command none queued) a p h =
        closes (t.instant 0) _ (send_all_keeps t.stamp 1 queued a p)
    Comes-Takes t (packet none room) a p h = tt
    Comes-Takes t (packet (some bytes) room) a p h = h
    Comes-Takes t (data_sent none queued) a p h = tt
    Comes-Takes t (data_sent (some bytes) queued) a p h =
        absorb_keeps s.send_high_water t.stamp 2 queued _ (sends (t.stamp 1) bytes a p)
