-- ===== src/Engine/Output.antt =====
-- kcp-core/src/engine.rs: `output_segment` and `flush_out_buf`, which pack segments into datagrams.
pub mod Packing
use rust_kcp.Base.{◌+◌, [], ◌∷◌, ◌++◌, length, is_empty}
use rust_kcp.Base.{ltb, ◌&&◌, not, if◌then◌else◌, add64}
use rust_kcp.Protocol.{KcpSegment, size}
use rust_kcp.Protocol.Wire.{ByteCodec, encode}
use rust_kcp.Engine.{KcpEngine}

-- Pending bytes become a datagram.
unfoldable pub split_out_buf : KcpEngine → KcpEngine
split_out_buf e = record e { output_queue = e.output_queue ++ e.out_buf ∷ []; out_buf = [] }

unfoldable pub flush_out_buf : KcpEngine → KcpEngine
unfolding split_out_buf
flush_out_buf e = if is_empty e.out_buf then e else split_out_buf e

unfoldable pub append_segment : ByteCodec → KcpSegment → KcpEngine → KcpEngine
append_segment codec seg e =
    let stats = e.stats in
    record e {
      out_buf = e.out_buf ++ encode codec seg;
      stats = record stats { packets_sent = add64 stats.packets_sent 1 };
    }

-- It returns `Ok` on every path.
unfoldable pub output_segment : ByteCodec → KcpSegment → KcpEngine → KcpEngine
unfolding append_segment split_out_buf
output_segment codec seg e = append_segment codec seg (
    if ltb e.config.mtu (length e.out_buf + size seg) && not (is_empty e.out_buf)
    then split_out_buf e
    else e)
