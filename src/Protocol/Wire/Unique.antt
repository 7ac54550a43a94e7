-- ===== src/Protocol/Wire/Unique.antt =====
-- kcp-core/src/protocol.rs: bytes that are the encoding of a segment are that of no other one, in the
-- fields that fit.
use rust_kcp.Base.{
  ℕ, ◌<◌, ◌^◌, ◌≡◌, refl, sym, ap, ◌∙◌, arith, List, [], ◌++◌, append_assoc, length, take, drop,
  take-append, drop-append, u32,
}
use rust_kcp.Protocol.{KcpHeader, KcpSegment}
use rust_kcp.Protocol.Wire.{ByteCodec, IsSegment, encode_header, encode, length-encode_header}

-- Two parts of the same length at the front of the same bytes
split_same : (xs ys r q : List ℕ) → length xs ≡ length ys → xs ++ r ≡ ys ++ q → (xs ≡ ys) × (r ≡ q)
split_same xs ys r q l h = (
  sym (take-append (length xs) xs r refl)
      ∙ ap (take (length xs)) h
      ∙ take-append (length xs) ys q (sym l),
  sym (drop-append (length xs) xs r refl)
      ∙ ap (drop (length xs)) h
      ∙ drop-append (length xs) ys q (sym l),
)

module _ (codec : ByteCodec) where
  open codec use {
    put_u8, put_u16_le, put_u32_le, get_u8, get_u32_le, length-put_u8, length-put_u16_le,
    length-put_u32_le, get-put_u8, get-put_u32_le,
  }

  same_u8 : (m n : ℕ) → m < 2 ^ 8 → n < 2 ^ 8 → put_u8 m ≡ put_u8 n → m ≡ n
  same_u8 m n h k e =
      ap (λ (x : ℕ × List ℕ). x.0)
        (sym (get-put_u8 m [] h) ∙ ap (λ bs. get_u8 (bs ++ [])) e ∙ get-put_u8 n [] k)

  pub same_u32 : (m n : ℕ) → m < 2 ^ 32 → n < 2 ^ 32 → put_u32_le m ≡ put_u32_le n → m ≡ n
  same_u32 m n h k e =
      ap (λ (x : ℕ × List ℕ). x.0)
        (sym (get-put_u32_le m [] h) ∙ ap (λ bs. get_u32_le (bs ++ [])) e ∙ get-put_u32_le n [] k)

  same_header :
      (h g : KcpHeader)
      → encode_header codec h ≡ encode_header codec g
      → (put_u8 h.cmd ≡ put_u8 g.cmd)
        × (put_u32_le h.sn ≡ put_u32_le g.sn)
        × (put_u32_le h.len ≡ put_u32_le g.len)
  unfolding encode_header
  same_header h g e =
      let word : (m n : ℕ) → length (put_u32_le m) ≡ length (put_u32_le n) =
        λ m n. length-put_u32_le m ∙ sym (length-put_u32_le n) in
      let half : (m n : ℕ) → length (put_u16_le m) ≡ length (put_u16_le n) =
        λ m n. length-put_u16_le m ∙ sym (length-put_u16_le n) in
      let byte : (m n : ℕ) → length (put_u8 m) ≡ length (put_u8 n) =
        λ m n. length-put_u8 m ∙ sym (length-put_u8 n) in
      let (conv, e1) = split_same _ _ _ _ (word h.conv g.conv) e in
      let (cmd, e2) = split_same _ _ _ _ (byte h.cmd g.cmd) e1 in
      let (frg, e3) = split_same _ _ _ _ (byte h.frg g.frg) e2 in
      let (wnd, e4) = split_same _ _ _ _ (half h.wnd g.wnd) e3 in
      let (ts, e5) = split_same _ _ _ _ (word h.ts g.ts) e4 in
      let (sn, e6) = split_same _ _ _ _ (word h.sn g.sn) e5 in
      let (una, len) = split_same _ _ _ _ (word h.una g.una) e6 in (cmd, sn, len)

  -- What a well-formed segment shares with one of the same bytes whose command and whose length
  -- fit, and what is behind them
  pub record IsSame (s t : KcpSegment) (r q : List ℕ) : Type 0 where
    pub cmd : s.header.cmd ≡ t.header.cmd
    pub sn_bytes : put_u32_le s.header.sn ≡ put_u32_le t.header.sn
    pub payload : s.payload ≡ t.payload
    pub behind : r ≡ q

  pub encode-IsSame :
      (s t : KcpSegment) (r q : List ℕ)
      → IsSegment s
      → t.header.cmd < 2 ^ 8
      → t.header.len ≡ u32 (length t.payload)
      → length t.payload < 2 ^ 32
      → encode codec s ++ r ≡ encode codec t ++ q
      → IsSame s t r q
  unfolding encode
  encode-IsSame s t r q v c l small e =
      let (head, e1) =
        split_same (encode_header codec s.header) (encode_header codec t.header) (s.payload ++ r)
          (t.payload ++ q)
          (length-encode_header codec s.header ∙ sym (length-encode_header codec t.header))
          (sym (append_assoc (encode_header codec s.header) s.payload r)
            ∙ e
            ∙ append_assoc (encode_header codec t.header) t.payload q) in
      let (cmd, sn, len) = same_header s.header t.header head in
      let same_len : s.header.len ≡ t.header.len =
        same_u32 s.header.len t.header.len v.fields_fit.len_fits (omega (arith, l)) len in
      let (payload, behind) =
        split_same s.payload t.payload r q (omega (arith, v.len_lem, same_len, l, small)) e1 in
      record {
        cmd = same_u8 s.header.cmd t.header.cmd v.fields_fit.cmd_fits c cmd;
        sn_bytes = sn;
        payload = payload;
        behind = behind;
      }
