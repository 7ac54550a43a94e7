-- ===== src/Kcp/Error.antt =====
-- kcp/error.rs: the errors of the async crate, their classes, and the conversion of the engine's
-- errors. A message is what its text says, and `other` is any text that no code here makes.
use rust_kcp.Base.{ℕ, ◌≡◌, refl, Bool, true, false, List}
use rust_kcp.Error.{Message, KcpCoreError}
use rust_kcp.Error as Core

-- What the code asks of `std::io::ErrorKind`; `other_kind` is each of the rest.
pub data ErrorKind : Type 0 where
  would_block timed_out interrupted : ErrorKind
  broken_pipe connection_aborted connection_refused connection_reset unexpected_eof : ErrorKind
  other_kind : ErrorKind

pub data ConnectionError : Type 0 where
  closed reset refused lost invalid_conv handshake_failed timed_out_connection : ConnectionError
  not_connected : ConnectionError

pub data KcpMessage : Type 0 where
  core_message : Message → KcpMessage
  mtu_range windows_zero windows_large interval_zero retries_zero : KcpMessage
  message_too_long : (len max : ℕ) → KcpMessage
  other : List ℕ → KcpMessage

pub data KcpError : Type 0 where
  io : ErrorKind → KcpError
  protocol : KcpMessage → KcpError
  connection : ConnectionError → KcpError
  timeout : ℕ → KcpError
  buffer : KcpMessage → KcpError
  config : KcpMessage → KcpError
  session : KcpMessage → KcpError
  internal : KcpMessage → KcpError

pub data Result {ℓ} (A : Type ℓ) : Type ℓ where
  ok : A → Result A
  err : KcpError → Result A

-- `From<KcpCoreError>`
unfoldable pub from_core : KcpCoreError → KcpError
from_core (Core.protocol m) = protocol (core_message m)
from_core (Core.buffer m) = buffer (core_message m)
from_core Core.connection_lost = connection lost

abbrev pub is_transient : ErrorKind → Bool
is_transient would_block = true
is_transient timed_out = true
is_transient interrupted = true
is_transient _ = false

unfoldable pub is_recoverable : KcpError → Bool
is_recoverable (io kind) = is_transient kind
is_recoverable (timeout ms) = true
is_recoverable (buffer m) = true
is_recoverable _ = false

unfoldable pub is_connection_error : KcpError → Bool
is_connection_error (connection kind) = true
is_connection_error _ = false

abbrev pub ends_session : ConnectionError → Bool
ends_session lost = true
ends_session closed = true
ends_session reset = true
ends_session _ = false

unfoldable pub is_fatal : KcpError → Bool
is_fatal (connection kind) = ends_session kind
is_fatal (internal m) = true
is_fatal _ = false

abbrev pub is_refusal : ConnectionError → Bool
is_refusal closed = true
is_refusal reset = true
is_refusal refused = true
is_refusal _ = false

abbrev pub is_broken : ErrorKind → Bool
is_broken broken_pipe = true
is_broken connection_aborted = true
is_broken connection_refused = true
is_broken connection_reset = true
is_broken unexpected_eof = true
is_broken _ = false

unfoldable pub is_closed : KcpError → Bool
is_closed (connection kind) = is_refusal kind
is_closed (io kind) = is_broken kind
is_closed _ = false

transient-broken : (kind : ErrorKind) → is_transient kind ≡ true → is_broken kind ≡ false
transient-broken would_block h = refl
transient-broken timed_out h = refl
transient-broken interrupted h = refl
transient-broken broken_pipe h = absurd (cc)
transient-broken connection_aborted h = absurd (cc)
transient-broken connection_refused h = absurd (cc)
transient-broken connection_reset h = absurd (cc)
transient-broken unexpected_eof h = absurd (cc)
transient-broken other_kind h = absurd (cc)

-- An error that is recoverable is neither fatal nor a closed connection nor a connection error.
pub recoverable_lem :
    (e : KcpError)
    → is_recoverable e ≡ true
    → (is_fatal e ≡ false) × (is_closed e ≡ false) × (is_connection_error e ≡ false)
unfolding is_recoverable is_fatal is_closed is_connection_error
recoverable_lem (io kind) h = (refl, transient-broken kind h, refl)
recoverable_lem (protocol m) h = absurd (cc)
recoverable_lem (connection kind) h = absurd (cc)
recoverable_lem (timeout ms) h = (refl, refl, refl)
recoverable_lem (buffer m) h = (refl, refl, refl)
recoverable_lem (config m) h = absurd (cc)
recoverable_lem (session m) h = absurd (cc)
recoverable_lem (internal m) h = absurd (cc)

-- The conversion of an engine's error keeps whether it is fatal, and the fatal ones become
-- connection errors.
pub is_fatal-from_core :
    (e : KcpCoreError)
    → (is_fatal (from_core e) ≡ Core.is_fatal e)
      × (is_connection_error (from_core e) ≡ Core.is_fatal e)
unfolding is_fatal from_core is_connection_error
is_fatal-from_core (Core.protocol m) = (refl, refl)
is_fatal-from_core (Core.buffer m) = (refl, refl)
is_fatal-from_core Core.connection_lost = (refl, refl)
