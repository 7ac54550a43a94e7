-- ===== src/Protocol/Wire.antt =====
-- kcp-core/src/protocol.rs: `encode` and `decode` of headers and segments. The integer reads and
-- writes are those of the `bytes` crate, which is not part of the repository: an interface with the
-- laws that its documentation states.
pub mod LittleEndian
pub mod Unique
use rust_kcp.Base.{ℕ, ◌+◌, ◌≤◌, ◌<◌, ◌^◌, ◌≡◌, arith, List, ◌++◌, Option, none, some}
use rust_kcp.Base.{
  length, length-append, append_assoc, ltb, ◌==◌, if◌then◌else◌, Bool-cases, Option-cases, inl, inr,
  ge→ltb, ltb→ge, false,
}
use rust_kcp.Protocol.{KcpHeader, KcpSegment, header_size}
use rust_kcp.Protocol.Constants.{ikcp_rto_def}

-- A read takes its bytes off the front of the buffer and panics on a shorter one; the laws speak of
-- buffers that are long enough.
pub record ByteCodec : Type 0 where
  pub put_u8 : ℕ → List ℕ
  pub put_u16_le : ℕ → List ℕ
  pub put_u32_le : ℕ → List ℕ
  pub get_u8 : List ℕ → ℕ × List ℕ
  pub get_u16_le : List ℕ → ℕ × List ℕ
  pub get_u32_le : List ℕ → ℕ × List ℕ
  pub length-put_u8 : (n : ℕ) → length (put_u8 n) ≡ 1
  pub length-put_u16_le : (n : ℕ) → length (put_u16_le n) ≡ 2
  pub length-put_u32_le : (n : ℕ) → length (put_u32_le n) ≡ 4
  pub get-put_u8 : (n : ℕ) (r : List ℕ) → n < 2 ^ 8 → get_u8 (put_u8 n ++ r) ≡ (n, r)
  pub get-put_u16_le : (n : ℕ) (r : List ℕ) → n < 2 ^ 16 → get_u16_le (put_u16_le n ++ r) ≡ (n, r)
  pub get-put_u32_le : (n : ℕ) (r : List ℕ) → n < 2 ^ 32 → get_u32_le (put_u32_le n ++ r) ≡ (n, r)

-- Each field fits its width.
pub record IsHeader (h : KcpHeader) : Type 0 where
  pub conv_fits : h.conv < 2 ^ 32
  pub cmd_fits : h.cmd < 2 ^ 8
  pub frg_fits : h.frg < 2 ^ 8
  pub wnd_fits : h.wnd < 2 ^ 16
  pub ts_fits : h.ts < 2 ^ 32
  pub sn_fits : h.sn < 2 ^ 32
  pub una_fits : h.una < 2 ^ 32
  pub len_fits : h.len < 2 ^ 32

-- A segment that `encode` writes and `decode` reads back: `len` is the payload's length.
pub record IsSegment (s : KcpSegment) : Type 0 where
  pub fields_fit : IsHeader s.header
  pub len_lem : s.header.len ≡ length s.payload

-- What `decode` makes of a segment: the fields that do not travel are reset.
abbrev pub received : KcpSegment → KcpSegment
received s = record s { resendts = 0; rto = ikcp_rto_def; fastack = 0; xmit = 0 }

module _ (codec : ByteCodec) where
  open codec use {
    put_u8, put_u16_le, put_u32_le, get_u8, get_u16_le, get_u32_le, length-put_u8,
    length-put_u16_le, length-put_u32_le, get-put_u8, get-put_u16_le, get-put_u32_le,
  }

  -- `KcpHeader::encode` appends these bytes to the buffer.
  unfoldable pub encode_header : KcpHeader → List ℕ
  encode_header h =
      put_u32_le h.conv
      ++ (put_u8 h.cmd
          ++ (put_u8 h.frg
              ++ (put_u16_le h.wnd
                  ++ (put_u32_le h.ts
                      ++ (put_u32_le h.sn ++ (put_u32_le h.una ++ put_u32_le h.len))))))

  -- `KcpHeader::decode`, with the bytes that it leaves in the buffer.
  unfoldable pub decode_header : List ℕ → Option (KcpHeader × List ℕ)
  decode_header buf =
      if ltb (length buf) header_size
      then none
      else (let (conv, b1) = get_u32_le buf in
          let (cmd, b2) = get_u8 b1 in
          let (frg, b3) = get_u8 b2 in
          let (wnd, b4) = get_u16_le b3 in
          let (ts, b5) = get_u32_le b4 in
          let (sn, b6) = get_u32_le b5 in
          let (una, b7) = get_u32_le b6 in
          let (len, b8) = get_u32_le b7 in
          some (
            record {
              conv = conv;
              cmd = cmd;
              frg = frg;
              wnd = wnd;
              ts = ts;
              sn = sn;
              una = una;
              len = len;
            },
            b8,
          ))

  -- `KcpSegment::encode` appends these bytes to the buffer.
  unfoldable pub encode : KcpSegment → List ℕ
  encode s = encode_header s.header ++ s.payload

  -- `KcpSegment::decode`
  unfoldable pub decode : List ℕ → Option KcpSegment
  decode buf = elim (decode_header buf) [
    | none ↦ none
    | some (h, rest) ↦
        if length rest == h.len
        then some (record {
          header = h;
          payload = rest;
          resendts = 0;
          rto = ikcp_rto_def;
          fastack = 0;
          xmit = 0;
        })
        else none
  ]

  pub length-encode_header : (h : KcpHeader) → length (encode_header h) ≡ header_size
  unfolding encode_header
  length-encode_header h = simp (length-append, length-put_u8, length-put_u16_le, length-put_u32_le)

  header_long_enough :
      (h : KcpHeader) (rest : List ℕ) → ltb (length (encode_header h ++ rest)) header_size ≡ false
  header_long_enough h rest =
      ge→ltb _ _ (omega (arith, length-append (encode_header h) rest, length-encode_header h))

  pub decode-encode_header :
      (h : KcpHeader) (rest : List ℕ)
      → IsHeader h
      → decode_header (encode_header h ++ rest) ≡ some (h, rest)
  unfolding decode_header encode_header
  decode-encode_header h rest v = rw (header_long_enough h rest) (
      simp (
        append_assoc,
        λ (r : List ℕ). get-put_u32_le h.conv r v.conv_fits,
        λ (r : List ℕ). get-put_u8 h.cmd r v.cmd_fits,
        λ (r : List ℕ). get-put_u8 h.frg r v.frg_fits,
        λ (r : List ℕ). get-put_u16_le h.wnd r v.wnd_fits,
        λ (r : List ℕ). get-put_u32_le h.ts r v.ts_fits,
        λ (r : List ℕ). get-put_u32_le h.sn r v.sn_fits,
        λ (r : List ℕ). get-put_u32_le h.una r v.una_fits,
        λ (r : List ℕ). get-put_u32_le h.len r v.len_fits,
      ))

  pub length-encode : (s : KcpSegment) → length (encode s) ≡ header_size + length s.payload
  unfolding encode
  length-encode s =
      rw (length-append (encode_header s.header) s.payload, length-encode_header s.header)

  -- A segment whose fields fit their widths and whose len is the length of its payload comes back
  -- from encode and decode, but for the fields that do not travel, which are reset; and its header
  -- is read back from a buffer that goes on with the payload and anything else.
  pub decode-encode :
      (s : KcpSegment) (more : List ℕ)
      → IsSegment s
      → (decode (encode s) ≡ some (received s))
        × (decode_header (encode s ++ more) ≡ some (s.header, s.payload ++ more))
  unfolding decode encode
  decode-encode s more v = (
    rw (decode-encode_header s.header s.payload v.fields_fit, decode) (ground (arith, v.len_lem)),
    rw (append_assoc (encode_header s.header) s.payload more)
        (decode-encode_header s.header (s.payload ++ more) v.fields_fit),
  )

  pub decode_header_needs :
      (buf : List ℕ) {p : KcpHeader × List ℕ}
      → decode_header buf ≡ some p
      → header_size ≤ length buf
  unfolding decode_header
  decode_header_needs buf e = elim (Bool-cases (ltb (length buf) header_size)) [
    | inl short ↦ absurd (cc (rw short at e))
    | inr long ↦ ltb→ge _ _ long
  ]

  -- `decode` accepts no buffer that is shorter than a header, and what it accepts has a payload of
  -- exactly the length that the header gives and fresh retransmission fields.
  pub decode-IsSome :
      (buf : List ℕ) (s : KcpSegment)
      → decode buf ≡ some s
      → (header_size ≤ length buf) × (s.header.len ≡ length s.payload) × (s ≡ received s)
  unfolding decode
  decode-IsSome buf s e = elim (Option-cases (decode_header buf)) [
    | inl absent ↦ absurd (cc (rw (absent, decode) at e))
    | inr ((h, rest), found) ↦ (decode_header_needs buf found, ground arith, ground arith)
  ]
