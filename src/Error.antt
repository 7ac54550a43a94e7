-- ===== src/Error.antt =====
-- kcp-core/src/error.rs: the three errors of the engine, and the result of an operation.
-- A message is what its text says, not the text.
use rust_kcp.Base.{ℕ, Bool, true, false}

pub data Message : Type 0 where
  packet_too_small : Message
  -- the fragments that a message needs, and how many the receive window can reassemble
  too_many_fragments : ℕ → ℕ → Message

pub data KcpCoreError : Type 0 where
  protocol : Message → KcpCoreError
  buffer : Message → KcpCoreError
  connection_lost : KcpCoreError

-- `KcpCoreError::is_fatal`
abbrev pub is_fatal : KcpCoreError → Bool
is_fatal (protocol m) = false
is_fatal (buffer m) = false
is_fatal connection_lost = true

pub data KcpCoreResult {ℓ} (A : Type ℓ) : Type ℓ where
  ok : A → KcpCoreResult A
  err : KcpCoreError → KcpCoreResult A
