-- ===== src/Kcp/Stream/Reading.antt =====
-- kcp/stream.rs: `poll_read` over a byte stream.
use rust_kcp.Base.{
  ℕ, ◌≤◌, ◌≡◌, refl, sym, ◌∙◌, ap, arith, inl, inr, true, false, List, [], ◌∷◌, ◌++◌, append_assoc,
  append-nil, Option, none, some, length, length-take, take-append-drop, Bool-cases, is_empty, min,
  ◌&&◌, not, if◌then◌else◌,
}
use rust_kcp.Kcp.Stream.{KcpStream, Poll, ready, pending, copy_out, poll_read}

-- The bytes that a poll takes from the channel. It polls the channel only when nothing is buffered
-- and the stream is open.
abbrev pub bytes_given : Poll (Option (List ℕ)) → List ℕ
bytes_given (ready (some bytes)) = bytes
bytes_given (ready none) = []
bytes_given pending = []

abbrev pub taken : Poll (Option (List ℕ)) → KcpStream → List ℕ
taken received s = if is_empty s.read_buf && not s.is_closed then bytes_given received else []

-- Nothing is lost, repeated or reordered, and the caller's buffer is not overrun.
abbrev pub Copies : ℕ → List ℕ → KcpStream → KcpStream × List ℕ × Poll (Unit {0}) → Type 0
Copies remaining given s (s', out, r) =
    (out ++ s'.read_buf ≡ s.read_buf ++ given)
    × (length out ≤ remaining)
    × (s'.is_closed ≡ s.is_closed)

copied :
    (remaining : ℕ) (s : KcpStream) (r : Poll (Unit {0}))
    → let (s', out) = copy_out remaining s in Copies remaining [] s (s', out, r)
unfolding copy_out
copied remaining s r =
    let n = min remaining (length s.read_buf) in
    (
      take-append-drop n s.read_buf ∙ sym (append-nil s.read_buf),
      omega (arith, length-take n s.read_buf),
      refl,
    )

from_channel :
    (remaining : ℕ) (received : Poll (Option (List ℕ))) (s : KcpStream)
    → is_empty s.read_buf ≡ true
    → s.is_closed ≡ false
    → Copies remaining (taken received s) s (poll_read remaining received s)
unfolding poll_read copy_out
from_channel remaining (ready (some bytes)) s t c =
    let s1 = record s { read_buf = s.read_buf ++ bytes } in
    let w = copied remaining s1 (ready tt) in
    simp (t, c, poll_read) (w.0 ∙ append-nil (s.read_buf ++ bytes), w.1, refl)
from_channel remaining (ready none) s t c =
    simp (t, c, poll_read) (sym (append-nil s.read_buf), omega arith, refl)
from_channel remaining pending s t c =
    simp (t, c, poll_read) (sym (append-nil s.read_buf), omega arith, refl)

pub poll_read-Copies :
    (remaining : ℕ) (received : Poll (Option (List ℕ))) (s : KcpStream)
    → Copies remaining (taken received s) s (poll_read remaining received s)
unfolding poll_read
poll_read-Copies remaining received s = elim (Bool-cases (is_empty s.read_buf)) [
  | inr t ↦ rw (t, poll_read) (copied remaining s (ready tt))
  | inl t ↦ elim (Bool-cases s.is_closed) [
    | inl c ↦ rw (t, c, poll_read) (sym (append-nil s.read_buf), omega arith, refl)
    | inr c ↦ from_channel remaining received s t c
  ]
]

-- A row of polls: the bytes put into the caller's buffers, and those taken from the channel
unfoldable pub poll_reads :
    List (ℕ × Poll (Option (List ℕ))) → KcpStream → KcpStream × List ℕ × List ℕ
poll_reads [] s = (s, [], [])
poll_reads ((remaining, received) ∷ polls) s =
    let (s1, out, r) = poll_read remaining received s in
    let (s2, outs, given) = poll_reads polls s1 in (s2, out ++ outs, taken received s ++ given)

abbrev pub Streams : KcpStream → KcpStream × List ℕ × List ℕ → Type 0
Streams s (s', outs, given) = outs ++ s'.read_buf ≡ s.read_buf ++ given

-- Over any row of polls of a read, of an open or a closed stream, what is put into the user's
-- buffers and what then is buffered are together what was buffered before and what was taken from
-- the channel, in order.
pub poll_reads-Streams :
    (polls : List (ℕ × Poll (Option (List ℕ)))) (s : KcpStream) → Streams s (poll_reads polls s)
unfolding poll_reads
poll_reads-Streams [] s = sym (append-nil s.read_buf)
poll_reads-Streams ((remaining, received) ∷ polls) s =
    let (s1, out, r) = poll_read remaining received s in
    let (s2, outs, given) = poll_reads polls s1 in
    append_assoc out outs s2.read_buf
    ∙ ap (◌++◌ out) (poll_reads-Streams polls s1)
    ∙ sym (append_assoc out s1.read_buf given)
    ∙ ap (λ b. b ++ given) (poll_read-Copies remaining received s).0
    ∙ append_assoc s.read_buf (taken received s) given
