-- ===== src/Protocol/Tests.antt =====
-- kcp-core/src/protocol.rs on concrete values.
use rust_kcp.Base.{◌-◌, ◌^◌, ◌≡◌, ◌++◌, refl, arith, true, not, [], ◌∷◌, some, negsuc}
use rust_kcp.Protocol.{
  KcpHeader, KcpSegment, push, ack, new_segment, is_data, is_ack, is_probe, random_conv_id, size,
}
use rust_kcp.Protocol.Seq.{time_diff, seq_before, seq_after}
use rust_kcp.Protocol.Wire.{
  IsHeader, IsSegment, received, encode, decode, decode_header, decode-encode, decode-IsSome,
}
use rust_kcp.Protocol.Wire.LittleEndian.{little_endian}

-- The wrap of the sequence numbers
seq_before_wrap : seq_before (2 ^ 32 - 1) 0 ≡ true
unfolding seq_before
seq_before_wrap = refl

seq_after_wrap : seq_after 5 (2 ^ 32 - 3) ≡ true
unfolding seq_after
seq_after_wrap = refl

time_diff_negative : time_diff 3 5 ≡ negsuc 1
unfolding time_diff
time_diff_negative = refl

push_kind : (is_data (push 9 1 2 [])) ≡ not (is_ack (push 9 1 2 []))
unfolding is_data is_ack push
push_kind = refl

size-ack : size (ack 9 1 2 3) ≡ 24
unfolding size ack
size-ack = refl

wask_is_probe : is_probe (new_segment 9 1 83 []) ≡ true
unfolding is_probe new_segment
wask_is_probe = refl

zero_draw : random_conv_id (0 ∷ 2 ^ 32 ∷ 7 ∷ []) ≡ some 7
unfolding random_conv_id
zero_draw = refl

abbrev two_bytes : KcpSegment
two_bytes = record {
  header = record {
    conv = 11;
    cmd = 81;
    frg = 1;
    wnd = 128;
    ts = 70000;
    sn = 300;
    una = 298;
    len = 2;
  };
  payload = 104 ∷ 105 ∷ [];
  resendts = 5;
  rto = 300;
  fastack = 1;
  xmit = 2;
}

two_bytes-IsSegment : IsSegment two_bytes
two_bytes-IsSegment = record {
  fields_fit = record {
    conv_fits = omega arith;
    cmd_fits = omega arith;
    frg_fits = omega arith;
    wnd_fits = omega arith;
    ts_fits = omega arith;
    sn_fits = omega arith;
    una_fits = omega arith;
    len_fits = omega arith;
  };
  len_lem = refl;
}

encode_bytes :
    encode little_endian two_bytes
    ≡ 11 ∷ 0 ∷ 0 ∷ 0 ∷ 81 ∷ 1 ∷ 128 ∷ 0 ∷ 112 ∷ 17 ∷ 1 ∷ 0 ∷ 44 ∷ 1 ∷ 0 ∷ 0 ∷ 42 ∷ 1 ∷ 0 ∷ 0 ∷ 2 ∷ 0
      ∷ 0 ∷ 0 ∷ 104 ∷ 105 ∷ []
unfolding encode rust_kcp.Protocol.Wire.encode_header
encode_bytes = refl

decode-encode_example :
    (decode little_endian (encode little_endian two_bytes) ≡ some (received two_bytes))
    × (decode_header little_endian (encode little_endian two_bytes ++ 1 ∷ [])
        ≡ some (two_bytes.header, 104 ∷ 105 ∷ 1 ∷ []))
decode-encode_example = decode-encode little_endian two_bytes (1 ∷ []) two_bytes-IsSegment

decode-two_bytes : decode little_endian (encode little_endian two_bytes) ≡ some (received two_bytes)
unfolding decode encode decode_header rust_kcp.Protocol.Wire.encode_header
decode-two_bytes = refl
