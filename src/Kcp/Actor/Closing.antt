-- ===== src/Kcp/Actor/Closing.antt =====
-- kcp/actor.rs: the graceful close.
use rust_kcp.Base.{
  ℕ, ◌+◌, ◌≤◌, ◌<◌, ◌≡◌, refl, ◌∙◌, arith, Bool, true, false, List, [], ◌∷◌, Option, none, some,
  Bool-cases, inl, inr, ◌⊎◌, ◌&&◌, ◌||◌, not,
}
use rust_kcp.Protocol.Wire.{ByteCodec}
use rust_kcp.Engine.{has_unsent_data, drain_output}
use rust_kcp.Engine.Flush.{flush}
use rust_kcp.Kcp.Actor.{
  Settings, Clock, Actor, EngineCmd, cmd_close, Turn, goes_on, breaks, then_do, Event, timer,
  command, packet, data_sent, send_all, is_past, flush_output, begin_close, on_command, branch,
  drain_check, turn, enabled,
}
use rust_kcp.Kcp.Actor.Induction.Steps.{branch_keeps}
use rust_kcp.Kcp.Actor.Induction.{Ends, Kept, Takes, closing_at}
use rust_kcp.Kcp.Actor.Wire.{transmit_leaves}

-- The actor drains, until `deadline` at the latest.
pub record IsClosing (deadline : ℕ) (a : Actor) : Type 0 where
  pub closing : a.closing ≡ true
  pub shut : a.send_closed ≡ true
  pub until : a.close_deadline ≡ some deadline

-- Neither a command nor a message is what a closing actor takes.
disabled :
    (s : Settings) {d : ℕ} (ev : Event) (a : Actor)
    → IsClosing d a
    → enabled s ev a ≡ true
    → ((room : ℕ) × (ev ≡ timer room)) ⊎ ((p : Option (List ℕ)) × (room : ℕ) × (ev ≡ packet p room))
unfolding enabled
disabled s (timer room) a v on = inl (room, refl)
disabled s (command c queued) a v on = absurd (ground (arith, v.closing))
disabled s (packet p room) a v on = inr (p, room, refl)
disabled s (data_sent bytes queued) a v on = absurd (ground (arith, v.shut))

-- Some turn's check reads the clock at `deadline` or later.
abbrev pub Reaches : ℕ → List (Clock × Event) → Type 0
Reaches deadline [] = ⊥
Reaches deadline ((t, ev) ∷ turns) = (deadline ≤ t.instant 2) ⊎ Reaches deadline turns

abbrev pub HasStopped : Turn → Type 0
HasStopped (goes_on a) = ⊥
HasStopped (breaks a) = Unit

-- A turn that goes on leaves the actor closing.
abbrev StillClosing : ℕ → Turn → Type 0
StillClosing d (goes_on b) = IsClosing d b
StillClosing d (breaks b) = Unit

-- What a turn that goes on has done, by the check behind it
abbrev pub Drains : ℕ → Clock → Turn → Type 0
Drains d t (goes_on b) = IsClosing d b × (has_unsent_data b.engine ≡ true) × (t.instant 2 < d)
Drains d t (breaks b) = Unit

module _ (codec : ByteCodec) (hash : ℕ → ℕ) (s : Settings) where
  IsClosing-Kept : (d : ℕ) → Kept codec hash s (IsClosing d)
  unfolding flush_output drain_output
  IsClosing-Kept d = record {
    flushes = λ now a v. record { closing = v.closing; shut = v.shut; until = v.until };
    probes = λ now a v. record { closing = v.closing; shut = v.shut; until = v.until };
    reads = λ a v. record { closing = v.closing; shut = v.shut; until = v.until };
    drains = λ a v.
        let (e, (l, sc, c, u)) =
          transmit_leaves codec hash s s.simulate_loss a.engine.output_queue
            (record a { engine = (drain_output a.engine).0 }) in
        record { closing = c ∙ v.closing; shut = sc ∙ v.shut; until = u ∙ v.until };
    marks = λ probe rs a v. record { closing = v.closing; shut = v.shut; until = v.until };
    shuts = λ a v. record { closing = v.closing; shut = refl; until = v.until };
  }

  drain_check-Drains :
      (d : ℕ) (t : Clock) (x : Turn)
      → Ends (IsClosing d) x
      → Drains d t (then_do x (drain_check codec hash s t))
  unfolding drain_check
  drain_check-Drains d t (breaks b) v = tt
  drain_check-Drains d t (goes_on b) v =
      let leaves : Bool =
        b.closing && (not (has_unsent_data b.engine) || is_past (t.instant 2) b.close_deadline) in
      elim (Bool-cases leaves) [ inl t1 ↦ rw t1 tt | inr t1 ↦ rw t1 (v, unsent t1, early t1) ]
    where
      unsent :
          (b.closing && (not (has_unsent_data b.engine) || is_past (t.instant 2) b.close_deadline))
            ≡ false
          → has_unsent_data b.engine ≡ true
      unsent h = ground (arith, v.closing)

      early :
          (b.closing && (not (has_unsent_data b.engine) || is_past (t.instant 2) b.close_deadline))
            ≡ false
          → t.instant 2 < d
      early h = ground (arith, v.closing, rw v.until at h)

  pub closing_turn :
      (d : ℕ) (t : Clock) (ev : Event) (a : Actor)
      → IsClosing d a
      → enabled s ev a ≡ true
      → Drains d t (turn codec hash s t ev a)
  unfolding turn
  closing_turn d t ev a v on = drain_check-Drains d t (branch codec hash s t ev a) (
      branch_keeps codec hash s (IsClosing d) (IsClosing-Kept d) t ev a
        (elim (disabled s ev a v on) [
          | inl (room, z) ↦ rw z tt
          | inr (p, room, z) ↦ rw z (taken p room)
        ])
        v)
    where
      taken :
          (p : Option (List ℕ)) (room : ℕ) → Takes codec hash s (IsClosing d) t (packet p room) a
      taken none room = tt
      taken (some bytes) room = record { closing = v.closing; shut = v.shut; until = v.until }

  -- The loop, over the branches it takes
  unfoldable pub run : List (Clock × Event) → Turn → Turn
  run [] x = x
  run ((t, ev) ∷ turns) (goes_on a) = run turns (turn codec hash s t ev a)
  run (first ∷ turns) (breaks a) = breaks a

  -- `select!` takes only branches whose guard holds.
  abbrev pub AllEnabled : List (Clock × Event) → Turn → Type 0
  AllEnabled [] x = Unit
  AllEnabled ((t, ev) ∷ turns) (goes_on a) =
      (enabled s ev a ≡ true) × AllEnabled turns (turn codec hash s t ev a)
  AllEnabled (first ∷ turns) (breaks a) = Unit

  pub run-breaks : (turns : List (Clock × Event)) (a : Actor) → HasStopped (run turns (breaks a))
  unfolding run
  run-breaks [] a = tt
  run-breaks (first ∷ turns) a = tt

  drains_stop :
      (d : ℕ) (turns : List (Clock × Event)) (x : Turn)
      → StillClosing d x
      → AllEnabled turns x
      → Reaches d turns
      → HasStopped (run turns x)
  unfolding run
  drains_stop d [] x v on late = absurd late
  drains_stop d (first ∷ turns) (breaks a) v on late = tt
  drains_stop d ((t, ev) ∷ turns) (goes_on a) v on late =
      next (turn codec hash s t ev a) (closing_turn d t ev a v on.0) on.1 late
        (λ b w o r. drains_stop d turns (goes_on b) w o r)
    where
      next :
          (y : Turn)
          → Drains d t y
          → AllEnabled turns y
          → (d ≤ t.instant 2) ⊎ Reaches d turns
          → ((b : Actor)
              → IsClosing d b
              → AllEnabled turns (goes_on b)
              → Reaches d turns
              → HasStopped (run turns (goes_on b)))
          → HasStopped (run turns y)
      next (breaks b) w on2 l more = run-breaks turns b
      next (goes_on b) w on2 (inl past) more = absurd (omega (arith, w.2))
      next (goes_on b) w on2 (inr rest) more = more b w.0 on2 rest

  close_turn :
      (t : Clock) (c : Option EngineCmd) (queued : List (List ℕ)) (a : Actor)
      → (c ≡ some cmd_close) ⊎ (c ≡ none)
      → Drains (t.instant 0 + 10000) t (turn codec hash s t (command c queued) a)
  unfolding turn branch on_command begin_close
  close_turn t c queued a asked =
      let d = t.instant 0 + 10000 in
      let e = (flush codec (t.stamp 0) (send_all t.stamp 1 queued a.engine)).0 in
      let v =
        (IsClosing-Kept d).drains (closing_at (t.instant 0) (record a { engine = e }))
          (record { closing = refl; shut = refl; until = refl }) in
      elim asked [
        | inl z ↦ rw z (drain_check-Drains d t (goes_on _) v)
        | inr z ↦ rw z (drain_check-Drains d t (goes_on _) v)
      ]

  Drains-StillClosing : (d : ℕ) (t : Clock) (x : Turn) → Drains d t x → StillClosing d x
  Drains-StillClosing d t (goes_on b) w = w.0
  Drains-StillClosing d t (breaks b) w = tt

  -- After a turn that takes a Close command, or finds the command channel closed, whatever
  -- branches the loop then takes as their guards allow: it has stopped once a turn's check reads
  -- the clock 10 seconds after the close or later.
  pub close_stops :
      (t : Clock) (c : Option EngineCmd) (queued : List (List ℕ)) (a : Actor)
      (turns : List (Clock × Event))
      → (c ≡ some cmd_close) ⊎ (c ≡ none)
      → let x = turn codec hash s t (command c queued) a in
        AllEnabled turns x → Reaches (t.instant 0 + 10000) turns → HasStopped (run turns x)
  close_stops t c queued a turns asked on late =
      drains_stop (t.instant 0 + 10000) turns (turn codec hash s t (command c queued) a)
        (Drains-StillClosing _ t _ (close_turn t c queued a asked)) on late
