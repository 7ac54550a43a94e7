-- ===== src/Engine/Ack.antt =====
-- kcp-core/src/engine.rs: what an acknowledgement does to the send buffer.
pub mod Keeps
pub mod InFlight
pub mod Scan
pub mod Search
use rust_kcp.Base.{
  ℕ, zero, suc, ◌+◌, ◌-◌, ◌/◌, Bool, true, false, List, [], ◌∷◌, ◌++◌, Option, none, some, length,
  get_elem?, remove_at, leb, ◌||◌, ◌&&◌, not, if◌then◌else◌, add32, is_neg, is_pos,
}
use rust_kcp.Protocol.{KcpSegment}
use rust_kcp.Protocol.Seq.{seq_before, time_diff}
use rust_kcp.Engine.{KcpEngine}

unfoldable pub drop_before : ℕ → List KcpSegment → List KcpSegment
drop_before una [] = []
drop_before una (seg ∷ segs) =
    if seq_before seg.header.sn una then drop_before una segs else seg ∷ segs

unfoldable pub parse_una : ℕ → KcpEngine → KcpEngine
unfolding drop_before
parse_una una e = record e { snd_buf = drop_before una e.snd_buf }

-- `binary_search_by` of the standard library: halve the part that may hold the place, keeping the
-- upper half unless its first element compares greater. Fuel: `size` falls each round.
unfoldable pub search_loop : ℕ → ℕ → List KcpSegment → ℕ → ℕ → ℕ
search_loop zero sn segs base size = base
search_loop (suc fuel) sn segs base size = elim (leb size 1) [
  | true ↦ base
  | false ↦ elim (get_elem? segs (base + size / 2)) [
    | none ↦ base
    | some seg ↦
        search_loop fuel sn segs
          (if is_pos (time_diff seg.header.sn sn) then base else base + size / 2) (size - size / 2)
  ]
]

-- `Ok(pos)` only
unfoldable pub binary_search : ℕ → List KcpSegment → Option ℕ
unfolding search_loop
binary_search sn segs =
    let base = search_loop (length segs) sn segs 0 (length segs) in
    elim (get_elem? segs base) [
      | none ↦ none
      | some seg ↦
          if not (is_neg (time_diff seg.header.sn sn)) && not (is_pos (time_diff seg.header.sn sn))
          then some base
          else none
    ]

-- The guard of `parse_ack` and `parse_fastack`
unfoldable pub not_in_flight : ℕ → KcpEngine → Bool
not_in_flight sn e = seq_before sn e.snd_una || not (seq_before sn e.snd_nxt)

unfoldable pub remove_acked : ℕ → List KcpSegment → List KcpSegment
unfolding binary_search
remove_acked sn segs = elim (binary_search sn segs) [ none ↦ segs | some pos ↦ remove_at pos segs ]

unfoldable pub parse_ack : ℕ → KcpEngine → KcpEngine
unfolding not_in_flight remove_acked
parse_ack sn e = if not_in_flight sn e then e else record e { snd_buf = remove_acked sn e.snd_buf }

unfoldable pub bump_fastack : ℕ → ℕ → List KcpSegment → List KcpSegment
bump_fastack sn ts [] = []
bump_fastack sn ts (seg ∷ segs) =
    if seq_before seg.header.sn sn
    then (if is_neg (time_diff ts seg.header.ts)
        then seg
        else record seg { fastack = add32 seg.fastack 1 })
      ∷ bump_fastack sn ts segs
    else seg ∷ segs

unfoldable pub parse_fastack : ℕ → ℕ → KcpEngine → KcpEngine
unfolding not_in_flight bump_fastack
parse_fastack sn ts e =
    if not_in_flight sn e then e else record e { snd_buf = bump_fastack sn ts e.snd_buf }

unfoldable pub first_sn : ℕ → List KcpSegment → ℕ
first_sn nxt [] = nxt
first_sn nxt (seg ∷ segs) = seg.header.sn

unfoldable pub shrink_buf : KcpEngine → KcpEngine
unfolding first_sn
shrink_buf e = record e { snd_una = first_sn e.snd_nxt e.snd_buf }

unfoldable pub ack_push : ℕ → ℕ → KcpEngine → KcpEngine
ack_push sn ts e = record e { ack_list = e.ack_list ++ (sn, ts) ∷ [] }
