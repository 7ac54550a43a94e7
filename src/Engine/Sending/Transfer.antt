-- ===== src/Engine/Sending/Transfer.antt =====
-- A sender and a receiver (kcp-core/src/engine.rs) with an arbitrary network between them: what is
-- read is what was sent.
use rust_kcp.Base.{
  ℕ, arith, length, length-append, zero, suc, ◌+◌, ◌<◌, ◌^◌, ◌≡◌, ◌≢◌, refl, sym, ap, ◌∙◌, inl, inr,
  List, [], ◌∷◌, ◌++◌, append_assoc, append-nil, get_elem?, Option, none, some, take, drop,
  take-append-drop, concat, concat-append, All, u32,
}
use rust_kcp.Protocol.{KcpSegment}
use rust_kcp.Protocol.Wire.{ByteCodec, IsSegment, received, encode, length-encode}
use rust_kcp.Protocol.Wire.Unique.{IsSame, encode-IsSame, same_u32}
use rust_kcp.Engine.Input.Parse.{datagram}
use rust_kcp.Config.{KcpCoreConfig}
use rust_kcp.Engine.{KcpEngine, new}
use rust_kcp.Engine.Payloads.{payloads}
use rust_kcp.Engine.Calls.{Call, drained, drained_bounds}
use rust_kcp.Engine.Input.{AckTrack, no_ack, process}
use rust_kcp.Engine.Delivery.{stream}
use rust_kcp.Engine.Delivery.Session.{
  Event, arrive, read, Session, step, run, AllGenuine, AllAdmissible, IsFaithful, run-IsFaithful,
  moved_on,
}
use rust_kcp.Engine.Sending.{IsOwn, Carries, All-more}
use rust_kcp.Engine.Sending.History.{sent_bytes, after_calls, numbered, drained_carries}

-- What the network and the reader do: the datagram that was put out as the `i`-th arrives, or the
-- application reads. A datagram may come never, once or many times, and in any order.
pub data Network : Type 0 where
  delivers : (now i : ℕ) → Network
  reads : Network

abbrev pub payload_or_nil : Option (List ℕ) → List ℕ
payload_or_nil none = []
payload_or_nil (some bytes) = bytes

abbrev pub payload_of : List (List ℕ) → ℕ → List ℕ
payload_of log k = payload_or_nil (get_elem? log k)

take-payload_of :
    (log : List (List ℕ)) (n : ℕ)
    → concat (take (suc n) log) ≡ concat (take n log) ++ payload_of log n
take-payload_of [] zero = refl
take-payload_of [] (suc n) = refl
take-payload_of (x ∷ log) zero = append-nil x
take-payload_of (x ∷ log) (suc n) =
    ap (◌++◌ x) (take-payload_of log n)
    ∙ sym (append_assoc x (concat (take n log)) (payload_of log n))

stream-payload_of : (log : List (List ℕ)) (n : ℕ) → stream (payload_of log) n ≡ concat (take n log)
stream-payload_of [] zero = refl
stream-payload_of (x ∷ log) zero = refl
stream-payload_of log (suc n) =
    ap (λ bs. bs ++ payload_of log n) (stream-payload_of log n) ∙ sym (take-payload_of log n)

-- The stream up to any segment is a prefix of all payloads.
stream-prefix :
    (log : List (List ℕ)) (n : ℕ) → stream (payload_of log) n ++ concat (drop n log) ≡ concat log
stream-prefix log n =
    ap (λ bs. bs ++ concat (drop n log)) (stream-payload_of log n)
    ∙ sym (concat-append (take n log) (drop n log))
    ∙ ap concat (take-append-drop n log)

-- A datagram of one or more well-formed segments
pub record IsWhole (codec : ByteCodec) (bytes : List ℕ) : Type 0 where
  pub segments : List KcpSegment
  pub some_segment : segments ≢ []
  pub well_formed : All IsSegment segments
  pub is_datagram : bytes ≡ datagram codec segments

module _ (codec : ByteCodec) (log : List (List ℕ)) where
  same-Carries :
      (s t : KcpSegment) (r q : List ℕ)
      → IsSegment s
      → IsSame codec s t r q
      → Carries log t
      → Carries log s
  same-Carries s t r q v same (l, c, inl other) = (
    omega (arith, v.len_lem, v.fields_fit.len_fits),
    v.fields_fit.cmd_fits,
    inl λ push. other (sym same.cmd ∙ push),
  )
  same-Carries s t r q v same (l, c, inr (k, n, g, m, p)) =
      let len : s.header.len ≡ u32 (length s.payload) =
        omega (arith, v.len_lem, v.fields_fit.len_fits) in
      let sn =
        same_u32 codec s.header.sn t.header.sn v.fields_fit.sn_fits (omega (arith, n))
          same.sn_bytes in
      (
        len,
        v.fields_fit.cmd_fits,
        inr (k, sn ∙ n, g ∙ ap some (sym same.payload), len, same.cmd ∙ p),
      )

  -- Whatever well-formed segments a datagram is read as, they carry what it was made of.
  read-Carries :
      (segs own : List KcpSegment)
      → All IsSegment segs
      → All (Carries log) own
      → length (datagram codec own) < 2 ^ 32
      → datagram codec segs ≡ datagram codec own
      → All (Carries log) segs
  read-Carries [] own v c h e = tt
  read-Carries (s ∷ segs) [] v c h e = absurd (
      omega (
        arith,
        ap length e,
        length-append (encode codec s) (datagram codec segs),
        length-encode codec s,
      ))
  read-Carries (s ∷ segs) (t ∷ own) v c h e =
      let fewer = length-append (encode codec t) (datagram codec own) in
      let same =
        encode-IsSame codec s t (datagram codec segs) (datagram codec own) v.0 c.0.1 c.0.0
          (omega (arith, h, fewer, length-encode codec t)) e in
      (
        same-Carries s t _ _ v.0 same c.0,
        read-Carries segs own v.1 c.1 (omega (arith, h, fewer)) same.behind,
      )

  -- The segments of a datagram, none for a number that no datagram has
  abbrev pub segments_of :
      (datagrams : List (List ℕ)) → All (IsWhole codec) datagrams → ℕ → List KcpSegment
  segments_of [] whole i = []
  segments_of (d ∷ datagrams) whole zero = whole.0.segments
  segments_of (d ∷ datagrams) whole (suc i) = segments_of datagrams whole.1 i

  segments_of-Carries :
      (datagrams : List (List ℕ)) (whole : All (IsWhole codec) datagrams) (i : ℕ)
      → All (IsOwn codec log) datagrams
      → All (λ d. length d < 2 ^ 32) datagrams
      → All (Carries log) (segments_of datagrams whole i)
  segments_of-Carries [] whole i own small = tt
  segments_of-Carries (d ∷ datagrams) whole zero own small =
      let w = whole.0 in
      let o = own.0 in
      read-Carries w.segments o.segments w.well_formed o.carried
        (omega (arith, small.0, ap length o.is_datagram)) (sym w.is_datagram ∙ o.is_datagram)
  segments_of-Carries (d ∷ datagrams) whole (suc i) own small =
      segments_of-Carries datagrams whole.1 i own.1 small.1

  abbrev pub events_of :
      (datagrams : List (List ℕ)) → All (IsWhole codec) datagrams → List Network → List Event
  events_of datagrams whole [] = []
  events_of datagrams whole (delivers now i ∷ evs) =
      arrive now (segments_of datagrams whole i) ∷ events_of datagrams whole evs
  events_of datagrams whole (reads ∷ evs) = read ∷ events_of datagrams whole evs

  -- The number of a data segment is less than 2 ^ 31 from the window.
  abbrev pub IsNear : ℕ → ℕ → KcpSegment → Type 0
  IsNear wnd n seg =
      (a : ℕ)
      → seg.header.sn ≡ u32 a
      → get_elem? log a ≡ some seg.payload
      → (a < n + 2 ^ 31) × (n + wnd < a + 2 ^ 31)

  abbrev pub AllNear : ℕ → ℕ → List KcpSegment → KcpEngine × AckTrack → Type 0
  AllNear current n [] (e, t) = Unit {0}
  AllNear current n (seg ∷ segs) (e, t) =
      IsNear e.wnd.rcv n seg
      × AllNear current (moved_on n e (process current (received seg) (e, t)).0) segs
          (process current (received seg) (e, t))

  AllNear-AllGenuine :
      (current n : ℕ) (segs : List KcpSegment) (e : KcpEngine) (t : AckTrack)
      → All (Carries log) segs
      → AllNear current n segs (e, t)
      → AllGenuine (payload_of log) current n segs (e, t)
  AllNear-AllGenuine current n [] e t c near = tt
  AllNear-AllGenuine current n (seg ∷ segs) e t c near =
      let (d, u) = process current (received seg) (e, t) in
      (
        λ push. elim c.0.2 [
          | inl other ↦ absurd (other push)
          | inr (k, num, found, len, cmd) ↦
              let (new, old) = near.0 k num found in
              (k, (num, ap payload_or_nil (sym found)), new, old)
        ],
        AllNear-AllGenuine current (moved_on n e d) segs d u c.1 near.1,
      )

  -- What is delivered is one of the datagrams, and near the window.
  abbrev pub Delivers : Event → Session → Type 0
  Delivers read s = Unit {0}
  Delivers (arrive now segs) s =
      (segs ≢ []) × AllNear now s.position segs (record s.engine { last_activity = now }, no_ack)

  abbrev pub AllDelivers : List Event → Session → Type 0
  AllDelivers [] s = Unit {0}
  AllDelivers (ev ∷ evs) s = Delivers ev s × AllDelivers evs (step codec ev s)

  segments_of-IsSegment :
      (datagrams : List (List ℕ)) (whole : All (IsWhole codec) datagrams) (i : ℕ)
      → All IsSegment (segments_of datagrams whole i)
  segments_of-IsSegment [] whole i = tt
  segments_of-IsSegment (d ∷ datagrams) whole zero = whole.0.well_formed
  segments_of-IsSegment (d ∷ datagrams) whole (suc i) = segments_of-IsSegment datagrams whole.1 i

  AllDelivers-AllAdmissible :
      (datagrams : List (List ℕ)) (whole : All (IsWhole codec) datagrams) (evs : List Network)
      (s : Session)
      → All (IsOwn codec log) datagrams
      → All (λ d. length d < 2 ^ 32) datagrams
      → AllDelivers (events_of datagrams whole evs) s
      → AllAdmissible codec (payload_of log) (events_of datagrams whole evs) s
  AllDelivers-AllAdmissible datagrams whole [] s own small a = tt
  AllDelivers-AllAdmissible datagrams whole (reads ∷ evs) s own small a =
      (tt, AllDelivers-AllAdmissible datagrams whole evs (step codec read s) own small a.1)
  AllDelivers-AllAdmissible datagrams whole (delivers now i ∷ evs) s own small ((ne, near), rest) =
      let segs = segments_of datagrams whole i in
      let e = record s.engine { last_activity = now } in
      (
        (
          ne,
          segments_of-IsSegment datagrams whole i,
          AllNear-AllGenuine now s.position segs e no_ack
              (segments_of-Carries datagrams whole i own small) near,
        ),
        AllDelivers-AllAdmissible datagrams whole evs (step codec (arrive now segs) s) own small
            rest,
      )

-- Whatever calls are made of a new sender with a 32-bit MTU, if each datagram that it puts out is
-- the encoding of one or more segments whose fields fit their widths; and whatever the network
-- delivers of these datagrams, in any order, repeated or not at all, each less than 2 ^ 31 numbers
-- from the window, to a receiver that has taken the sender's stream so far, with any reads in
-- between: what the receiver's application has read is a prefix of the bytes that the calls of
-- send queued.
pub read-sent :
    (codec : ByteCodec) (calls : List Call) (now conv : ℕ) (config : KcpCoreConfig)
    (evs : List Network) (s : Session)
    → config.mtu < 2 ^ 32
    → let e = new now conv config in
      let log = numbered codec calls e in
      (whole : All (IsWhole codec) (drained codec calls e))
      → IsFaithful (payload_of log) s
      → AllDelivers codec log (events_of codec log (drained codec calls e) whole evs) s
      → (rest : List ℕ) × ((run codec (events_of codec log (drained codec calls e) whole evs) s).got
            ++ rest
          ≡ sent_bytes codec calls e)
read-sent codec calls now conv config evs s h whole f a =
    let e = new now conv config in
    let log = numbered codec calls e in
    let datagrams = drained codec calls e in
    let c = drained_carries codec calls now conv config h in
    let small =
      All-more _ _ datagrams (λ d k. omega (arith, k, h))
        (drained_bounds codec calls now conv config h) in
    let evs' = events_of codec log datagrams whole evs in
    let end = run codec evs' s in
    let g =
      run-IsFaithful (payload_of log) codec evs' s f
        (AllDelivers-AllAdmissible codec log datagrams whole evs s c.carried small a) in
    let waits = payloads end.engine.rcv_queue in
    let later = concat (drop end.position log) in
    let queued = payloads (after_calls codec calls e).snd_queue in
    (
      waits ++ (later ++ queued),
      sym (append_assoc end.got waits (later ++ queued))
          ∙ ap (λ bs. bs ++ (later ++ queued)) g.prefix
          ∙ sym (append_assoc (stream (payload_of log) end.position) later queued)
          ∙ ap (λ bs. bs ++ queued) (stream-prefix log end.position)
          ∙ sym c.whole,
    )
