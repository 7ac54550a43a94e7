-- ===== src/Kcp/Stream/EndToEnd.antt =====
-- kcp/stream.rs over kcp/actor.rs: what the user of a stream reads.
use rust_kcp.Base.{
  ℕ, ◌≡◌, sym, ◌∙◌, ap, List, [], ◌++◌, append_assoc, concat, concat-append, Option,
}
use rust_kcp.Protocol.Wire.{ByteCodec}
use rust_kcp.Engine.{KcpEngine}
use rust_kcp.Engine.Payloads.{payloads}
use rust_kcp.Engine.Delivery.{stream}
use rust_kcp.Engine.Delivery.Session.{IsFaithful}
use rust_kcp.Kcp.Actor.{Settings, Actor, goes_on}
use rust_kcp.Kcp.Actor.Induction.{Reach}
use rust_kcp.Kcp.Actor.Delivery.{session, Admits, forwarded-IsFaithful}
use rust_kcp.Kcp.Stream.{KcpStream, Poll}
use rust_kcp.Kcp.Stream.Reading.{poll_reads, poll_reads-Streams}

-- What was read, what the stream buffers, what is in the channel and what the engine holds ready
-- are the peer's stream up to the segment that is expected next.
abbrev pub ReadsPrefix : (ℕ → List ℕ) → List (List ℕ) → KcpStream × List ℕ × List ℕ → Actor → Type 0
ReadsPrefix src waiting (s, outs, given) a =
    outs ++ (s.read_buf ++ (concat waiting ++ payloads a.engine.rcv_queue)) ≡ stream src a.position

module _ (src : ℕ → List ℕ) (codec : ByteCodec) (hash : ℕ → ℕ) (settings : Settings) where
  reads :
      (outs buffered given : List ℕ) (forwarded got waiting : List (List ℕ)) (a : Actor)
      → outs ++ buffered ≡ given
      → concat got ≡ given
      → a.forwarded ≡ got ++ waiting
      → IsFaithful src (session a)
      → outs ++ (buffered ++ (concat waiting ++ payloads a.engine.rcv_queue))
        ≡ stream src a.position
  reads outs buffered given forwarded got waiting a p g q f =
      let queue = payloads a.engine.rcv_queue in
      sym (append_assoc outs buffered (concat waiting ++ queue))
      ∙ ap (λ b. b ++ (concat waiting ++ queue)) (p ∙ sym g)
      ∙ sym (append_assoc (concat got) (concat waiting) queue)
      ∙ ap (λ b. b ++ queue) (sym (ap concat q ∙ concat-append got waiting))
      ∙ f.prefix

  -- For an engine in a faithful session of a peer's stream, and any run of its actor in which what
  -- the packet branch receives is datagrams of well-formed segments of that stream, in any order,
  -- lost or repeated, but none as far as 2 ^ 31 numbers from the window: if the data channel gives
  -- the messages that were forwarded in their order, then what a user has read by polls of a
  -- stream with an empty read buffer, what the stream buffers, what waits in the channel and what
  -- the engine holds ready are together the peer's stream up to the segment that is expected next,
  -- with no gap and nothing twice.
  pub reads_prefix :
      {n : ℕ} {e : KcpEngine} {a : Actor} (s : KcpStream)
      (polls : List (ℕ × Poll (Option (List ℕ)))) (got waiting : List (List ℕ))
      → IsFaithful src (record { position = n; engine = e; got = [] })
      → Reach codec hash settings (Admits src codec hash settings) n e (goes_on a)
      → s.read_buf ≡ []
      → a.forwarded ≡ got ++ waiting
      → concat got ≡ (poll_reads polls s).2
      → ReadsPrefix src waiting (poll_reads polls s) a
  reads_prefix {n} {e} {a} s polls got waiting f r empty q g =
      let (s', outs, given) = poll_reads polls s in
      reads outs s'.read_buf given a.forwarded got waiting a
        (poll_reads-Streams polls s ∙ ap (λ b. b ++ given) empty) g q
        (forwarded-IsFaithful src codec hash settings f r)
