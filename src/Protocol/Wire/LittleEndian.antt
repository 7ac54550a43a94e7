-- ===== src/Protocol/Wire/LittleEndian.antt =====
-- Little-endian integers, as the `bytes` crate documents them: the instance of the codec interface
-- that the tests run on.
use rust_kcp.Base.{ℕ, ◌+◌, ◌*◌, ◌/◌, ◌%◌, ◌<◌, ◌^◌, ◌≡◌, refl, arith, List, [], ◌∷◌}
use rust_kcp.Protocol.Wire.{ByteCodec}

abbrev byte : ℕ → ℕ → ℕ
byte k n = n / 2 ^ (8 * k) % 2 ^ 8

abbrev get8 : List ℕ → ℕ × List ℕ
get8 [] = (0, [])
get8 (a ∷ r) = (a, r)

abbrev get16 : List ℕ → ℕ × List ℕ
get16 (a ∷ b ∷ r) = (a + 256 * b, r)
get16 r = (0, [])

abbrev get32 : List ℕ → ℕ × List ℕ
get32 (a ∷ b ∷ c ∷ d ∷ r) = (a + 256 * (b + 256 * (c + 256 * d)), r)
get32 r = (0, [])

pub byte-join16 : (n : ℕ) → n < 2 ^ 16 → byte 0 n + 256 * byte 1 n ≡ n
byte-join16 n h = omega arith

pub byte-join32 :
    (n : ℕ) → n < 2 ^ 32 → byte 0 n + 256 * (byte 1 n + 256 * (byte 2 n + 256 * byte 3 n)) ≡ n
byte-join32 n h = omega arith

pub byte_whole : (n : ℕ) → n < 2 ^ 8 → byte 0 n ≡ n
byte_whole n h = omega arith

abbrev pub little_endian : ByteCodec
little_endian = record {
  put_u8 = λ n. byte 0 n ∷ [];
  put_u16_le = λ n. byte 0 n ∷ byte 1 n ∷ [];
  put_u32_le = λ n. byte 0 n ∷ byte 1 n ∷ byte 2 n ∷ byte 3 n ∷ [];
  get_u8 = get8;
  get_u16_le = get16;
  get_u32_le = get32;
  length-put_u8 = λ n. refl;
  length-put_u16_le = λ n. refl;
  length-put_u32_le = λ n. refl;
  get-put_u8 = λ n r h. rw (byte_whole n h) refl;
  get-put_u16_le = λ n r h. rw (byte-join16 n h) refl;
  get-put_u32_le = λ n r h. rw (byte-join32 n h) refl;
}
