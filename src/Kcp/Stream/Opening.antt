-- ===== src/Kcp/Stream/Opening.antt =====
-- kcp/stream.rs: what the constructors hand to the actor.
use rust_kcp.Base.{
  ℕ, ◌≡◌, refl, ◌∙◌, subst, inl, inr, List, [], Bool-cases, ◌==◌, if◌then◌else◌, eqb→eq,
}
use rust_kcp.Error.{KcpCoreResult}
use rust_kcp.Protocol.Wire.{ByteCodec}
use rust_kcp.Engine.{KcpEngine, new, start, set_conv}
use rust_kcp.Engine.Input.{input}
use rust_kcp.Engine.Input.Queue.{input-SameQueue}
use rust_kcp.Engine.Flush.{flush, update}
use rust_kcp.Engine.Flush.Packed.{IsSized}
use rust_kcp.Engine.Flush.Leaves.{flush-Leaves, update-Leaves}
use rust_kcp.Engine.Calls.{call, call-IsSized, call_input, call_set_conv, call_update, call_flush}
use rust_kcp.Kcp.Error.{Result, ok, err}
use rust_kcp.Kcp.Config.{KcpConfig, to_core, validate}
use rust_kcp.Kcp.Config.Valid.{IsValid, validate-IsValid, new-valid}
use rust_kcp.Kcp.Actor.{Settings, Turn}
use rust_kcp.Kcp.Actor.Induction.{Ends, Reach}
use rust_kcp.Kcp.Actor.Wire.{Within, Anything, wire_bounds}
use rust_kcp.Kcp.Stream.{KcpStream, ◌>>=◌, try_core, greet, new_server_stream}

-- A result that is `ok` came from one.
try_core_ok :
    (x : KcpEngine × KcpCoreResult (Unit {0})) (e : KcpEngine) → try_core x ≡ ok e → x.0 ≡ e
try_core_ok (d, rust_kcp.Error.ok u) e h = cc
try_core_ok (d, rust_kcp.Error.err y) e h = absurd (cc)

bind_ok :
    {A B : Type 0} (x : Result A) (f : A → Result B) (b : B)
    → x >>= f ≡ ok b
    → (a : A) × (x ≡ ok a) × (f a ≡ ok b)
bind_ok (ok a) f b h = (a, refl, h)
bind_ok (err y) f b h = absurd (cc)

module _ (codec : ByteCodec) where
  switch-IsSized :
      {mtu : ℕ} (client server : ℕ) (e : KcpEngine)
      → IsSized mtu e
      → IsSized mtu (if client == server then e else set_conv server e)
  unfolding call
  switch-IsSized client server e v = elim (Bool-cases (client == server)) [
    | inl t ↦ rw t v
    | inr t ↦ rw t (call-IsSized codec (call_set_conv server) e v)
  ]

  switch_conv :
      (client server : ℕ) (e : KcpEngine)
      → e.conv ≡ client
      → (if client == server then e else set_conv server e).conv ≡ server
  unfolding set_conv
  switch_conv client server e h = elim (Bool-cases (client == server)) [
    | inl t ↦ rw t (h ∙ eqb→eq client server t)
    | inr t ↦ rw t refl
  ]

  -- The engine of a greeting that succeeds
  greet_lem :
      {mtu : ℕ} (stamp : ℕ → ℕ) (client server : ℕ) (packet : List ℕ) (e e' : KcpEngine)
      → e.conv ≡ client
      → IsSized mtu e
      → greet codec stamp client server packet e ≡ ok e'
      → (e'.conv ≡ server) × IsSized mtu e'
  unfolding greet call set_conv
  greet_lem {mtu} stamp client server packet e e' c v h =
      let (e1, p, h1) = bind_ok (try_core (input codec (stamp 0) packet e)) _ e' h in
      let d = if client == server then e1 else set_conv server e1 in
      let (e2, q, h2) = bind_ok (try_core (update codec (stamp 1) d)) _ e' h1 in
      let z1 = try_core_ok (input codec (stamp 0) packet e) e1 p in
      let z2 = try_core_ok (update codec (stamp 1) d) e2 q in
      let z3 = try_core_ok (flush codec (stamp 2) e2) e' h2 in
      let v1 : IsSized mtu e1 =
        subst (IsSized mtu) z1 (call-IsSized codec (call_input (stamp 0) packet) e v) in
      let v2 : IsSized mtu e2 =
        subst (IsSized mtu) z2
          (call-IsSized codec (call_update (stamp 1)) d (switch-IsSized client server e1 v1)) in
      let c1 : e1.conv ≡ client =
        subst (λ x. x.conv ≡ client) z1 ((input-SameQueue codec (stamp 0) packet e).2 ∙ c) in
      let c2 : e2.conv ≡ server =
        subst (λ x. x.conv ≡ server) z2
          ((update-Leaves codec (stamp 1) d).conv ∙ switch_conv client server e1 c1) in
      (
        subst (λ x. x.conv ≡ server) z3 ((flush-Leaves codec (stamp 2) e2).conv ∙ c2),
        subst (IsSized mtu) z3 (call-IsSized codec (call_flush (stamp 2)) e2 v2),
      )

  -- If new_server_stream succeeds, its configuration is valid, its engine has the server's
  -- conversation id whatever the client's was, and in any run of the actor that it starts,
  -- whatever packets, commands and writes come in, no datagram that is handed to the transport is
  -- longer than the configured MTU.
  pub new_server_stream_lem :
      (hash : ℕ → ℕ) (stamp : ℕ → ℕ) (now client server : ℕ) (c : KcpConfig) (packet : List ℕ)
      (s : KcpStream) (e : KcpEngine) (settings : Settings) {n : ℕ} {x : Turn}
      → new_server_stream codec stamp now client server c packet ≡ ok (s, e, settings)
      → Reach codec hash settings Anything n e x
      → IsValid c × (e.conv ≡ server) × Ends (λ a. Within c.mtu a.wire) x
  unfolding new_server_stream start new
  new_server_stream_lem hash stamp now client server c packet s e settings h r =
      let (u, p, h1) = bind_ok (validate c) _ (s, e, settings) h in
      let valid = (validate-IsValid c).1 p in
      let (e2, q, h2) =
        bind_ok (greet codec stamp client server packet (new now client (to_core c))) _
          (s, e, settings) h1 in
      let z : e2 ≡ e = cc in
      let w = new-valid now client c (λ n. []) valid in
      let g = greet_lem stamp client server packet (new now client (to_core c)) e2 refl w.2 q in
      (
        valid,
        subst (λ x. x.conv ≡ server) z g.0,
        wire_bounds codec hash settings (subst (IsSized c.mtu) z g.1) r,
      )
