-- ===== src/Kcp/Actor/Pressure.antt =====
-- kcp/actor.rs: the send branch, which leaves messages in the channel while the engine's queue is at
-- the high-water mark.
use rust_kcp.Base.{
  ℕ, suc, ◌+◌, ◌≤◌, ◌<◌, ◌≡◌, refl, ◌∙◌, ap, arith, true, List, [], ◌∷◌, ◌++◌, length, none, some,
  min, ltb, ltb→lt, ltb→ge, Bool-cases, inl, inr, ◌⊎◌,
}
use rust_kcp.Config.{KcpCoreConfig}
use rust_kcp.Protocol.Wire.{ByteCodec}
use rust_kcp.Engine.{KcpEngine, send_queue_len, drain_output}
use rust_kcp.Engine.Recv.{recv}
use rust_kcp.Engine.Input.{input}
use rust_kcp.Engine.Send.{send}
use rust_kcp.Engine.Send.Grows.{send-Grows}
use rust_kcp.Engine.Calls.{recv-SameOutput}
use rust_kcp.Engine.Input.Queue.{input-SameQueue}
use rust_kcp.Engine.Flush.Leaves.{Leaves, flush-Leaves, keep_alive_probe-Leaves, update-Leaves}
use rust_kcp.Kcp.Actor.{
  Settings, Clock, Actor, Turn, cmd_flush, cmd_stats, cmd_is_alive, cmd_close, Event, timer,
  command, packet, data_sent, send_all, absorb, flush_output, enabled,
}
use rust_kcp.Kcp.Actor.Induction.Steps.{Reach-keeps}
use rust_kcp.Kcp.Actor.Induction.{Ends, Kept, Takes, Reach}
use rust_kcp.Kcp.Actor.Wire.{transmit_leaves}

-- The loop of the data branch takes a prefix of what the channel holds and sends it in order, as
-- the loop of a close does with all of it; it leaves a message in the channel only when the
-- engine's queue has reached the high-water mark.
pub absorb-send_all :
    (high : ℕ) (stamp : ℕ → ℕ) (k : ℕ) (queued : List (List ℕ)) (e : KcpEngine)
    → let (e', left) = absorb high stamp k queued e in
      (taken : List (List ℕ)) × (queued ≡ taken ++ left)
      × (e' ≡ send_all stamp k taken e)
      × ((left ≡ []) ⊎ (high ≤ send_queue_len e'))
unfolding absorb send_all
absorb-send_all high stamp k [] e = ([], refl, refl, inl refl)
absorb-send_all high stamp k (m ∷ ms) e =
    let (taken, q, z, end) = absorb-send_all high stamp (suc k) ms (send (stamp k) m e).0 in
    elim (Bool-cases (ltb (send_queue_len e) high)) [
      | inl t ↦ rw (t, absorb) (m ∷ taken, ap (◌∷◌ m) q, z, end)
      | inr t ↦ rw (t, absorb) ([], refl, refl, inr (ltb→ge _ _ t))
    ]

module _ (codec : ByteCodec) (hash : ℕ → ℕ) (s : Settings) (cfg : KcpCoreConfig) where
  abbrev pub queue_limit : ℕ
  queue_limit = s.send_high_water + min cfg.rcv_wnd 128

  abbrev Limited : KcpEngine → Type 0
  Limited e = (e.config ≡ cfg) × (length e.snd_queue ≤ queue_limit)

  Leaves-Limited : (e e' : KcpEngine) → Leaves e e' → Limited e → Limited e'
  Leaves-Limited e e' l (c, n) = (l.config ∙ c, omega (arith, n, l.shorter))

  SameQueue-Limited :
      (e e' : KcpEngine)
      → (e'.config ≡ e.config) × (e'.snd_queue ≡ e.snd_queue)
      → Limited e
      → Limited e'
  SameQueue-Limited e e' (c, q) (d, n) = (c ∙ d, rw q n)

  send-Limited :
      (now : ℕ) (m : List ℕ) (e : KcpEngine)
      → send_queue_len e < s.send_high_water
      → Limited e
      → Limited (send now m e).0
  unfolding send_queue_len
  send-Limited now m e h (c, n) =
      let (d, g) = send-Grows now m e in (d ∙ c, omega (arith, h, g, ap (λ x. x.rcv_wnd) c))

  absorb-Limited :
      (stamp : ℕ → ℕ) (k : ℕ) (ms : List (List ℕ)) (e : KcpEngine)
      → Limited e
      → Limited (absorb s.send_high_water stamp k ms e).0
  unfolding absorb
  absorb-Limited stamp k [] e v = v
  absorb-Limited stamp k (m ∷ ms) e v =
      elim (Bool-cases (ltb (send_queue_len e) s.send_high_water)) [
        | inl t ↦
            rw t (absorb-Limited stamp (suc k) ms _ (send-Limited (stamp k) m e (ltb→lt _ _ t) v))
        | inr t ↦ rw t v
      ]

  Limited-Kept : Kept codec hash s (λ a. Limited a.engine)
  unfolding flush_output drain_output
  Limited-Kept = record {
    flushes = λ now a p. Leaves-Limited a.engine _ (flush-Leaves codec now a.engine) p;
    probes = λ now a p. Leaves-Limited a.engine _ (keep_alive_probe-Leaves codec now a.engine) p;
    reads = λ a p.
        let (c, _, _, q, _) = recv-SameOutput a.engine in
        SameQueue-Limited a.engine (recv a.engine).0 (c, q) p;
    drains = λ a p. rw (transmit_leaves codec hash s s.simulate_loss a.engine.output_queue _).0 p;
    marks = λ probe rs a p. p;
    shuts = λ a p. p;
  }

  -- No close has been asked for.
  abbrev pub IsOpen : Clock → Event → Actor → Type 0
  IsOpen t (command (some cmd_close) queued) a = ⊥
  IsOpen t (command none queued) a = ⊥
  IsOpen t _ a = Unit

  open-Takes :
      (t : Clock) (ev : Event) (a : Actor)
      → enabled s ev a ≡ true
      → IsOpen t ev a
      → Limited a.engine
      → Takes codec hash s (λ b. Limited b.engine) t ev a
  unfolding enabled
  open-Takes t (timer room) a on h p = tt
  open-Takes t (command (some cmd_flush) queued) a on h p = tt
  open-Takes t (command (some cmd_stats) queued) a on h p = tt
  open-Takes t (command (some cmd_is_alive) queued) a on h p = tt
  open-Takes t (command (some cmd_close) queued) a on h p = absurd h
  open-Takes t (command none queued) a on h p = absurd h
  open-Takes t (packet none room) a on h p = tt
  open-Takes t (packet (some bytes) room) a on h p =
      let (c, q, v) = input-SameQueue codec (t.stamp 0) bytes a.engine in
      SameQueue-Limited a.engine (input codec (t.stamp 0) bytes a.engine).0 (c, q) p
  open-Takes t (data_sent none queued) a on h p = tt
  open-Takes t (data_sent (some bytes) queued) a on h p =
      absorb-Limited t.stamp 2 queued _ (send-Limited (t.stamp 1) bytes a.engine below_mark p)
    where
      below_mark : send_queue_len a.engine < s.send_high_water
      below_mark = ground arith

  -- From an engine whose send queue is no longer than the high-water mark and min(rcv_wnd, 128)
  -- segments together, in any run in which no close is asked for, the queue never gets longer than
  -- that, whatever is written, and the configuration stays.
  pub queue_bounds :
      {n : ℕ} {e : KcpEngine} {x : Turn}
      → e.config ≡ cfg
      → length e.snd_queue ≤ queue_limit
      → Reach codec hash s IsOpen n e x
      → Ends (λ a. Limited a.engine) x
  queue_bounds {n} {e} c q r =
      Reach-keeps codec hash s (λ a. Limited a.engine) Limited-Kept IsOpen open-Takes
        (λ t. Leaves-Limited e _ (update-Leaves codec (t.stamp 0) e) (c, q)) r
