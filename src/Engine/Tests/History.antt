-- ===== src/Engine/Tests/History.antt =====
-- A run of a sender (kcp-core/src/engine.rs).
use rust_kcp.Base.{arith, List, [], ◌∷◌}
use rust_kcp.Protocol.Wire.LittleEndian.{little_endian}
use rust_kcp.Engine.{new}
use rust_kcp.Engine.Calls.{Call, call_send, call_update, call_recv, drained}
use rust_kcp.Engine.Sending.History.{Carried, sent_bytes, after_calls, numbered, drained_carries}
use rust_kcp.Engine.Tests.{small}

-- A message of seven bytes, sent in datagrams of 27 bytes at most
abbrev calls : List Call
calls = call_send 200 (1 ∷ 2 ∷ 3 ∷ 4 ∷ 5 ∷ 6 ∷ 7 ∷ []) ∷ call_update 300 ∷ call_recv ∷ []

drained_carries_example :
    let e = new 100 7 small in
    Carried little_endian []
      (numbered little_endian calls e)
      []
      (sent_bytes little_endian calls e)
      (after_calls little_endian calls e)
      (drained little_endian calls e)
drained_carries_example = drained_carries little_endian calls 100 7 small (omega arith)
