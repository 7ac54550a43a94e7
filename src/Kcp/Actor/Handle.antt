-- ===== src/Kcp/Actor/Handle.antt =====
-- kcp/actor.rs, `EngineHandle`: a request as seen by its caller, who learns whether the command was
-- queued, and then what the reply channel gave.
use rust_kcp.Base.{Bool, true, false, Option, none, some}
use rust_kcp.Protocol.{KcpStats}
use rust_kcp.Kcp.Error.{Result, ok, err, connection, closed}

unfoldable pub request {ℓ} : {A : Type ℓ} → Bool → Option A → Result A
request false reply = err (connection closed)
request true none = err (connection closed)
request true (some a) = ok a

-- The `?` of `flush`
abbrev flatten {ℓ} : {A : Type ℓ} → Result (Result A) → Result A
flatten (ok r) = r
flatten (err e) = err e

unfoldable pub handle_flush : Bool → Option (Result (Unit {0})) → Result (Unit {0})
unfolding request
handle_flush queued reply = flatten (request queued reply)

unfoldable pub handle_stats : Bool → Option KcpStats → Result KcpStats
unfolding request
handle_stats queued reply = request queued reply

abbrev unwrap_or_false : Result Bool → Bool
unwrap_or_false (ok b) = b
unwrap_or_false (err e) = false

unfoldable pub handle_is_alive : Bool → Option Bool → Bool
unfolding request
handle_is_alive queued reply = unwrap_or_false (request queued reply)
