-- ===== src/Tests/Frames.antt =====
-- The theorems on the framing of messages, with three bytes for a message that is its own encoding.
use chain_replication.Base.{
  ℕ, ◌%◌, ◌≡◌, ◌≢◌, refl, some, List, [], ◌∷◌, ◌++◌, length, arith, u32_mod,
}
use chain_replication.Exec.{ok, aborted}
use chain_replication.Wire.Codec.{
  Protobuf, IsCodec, little_endian, encode_msg, decode_hdr, decode_body, decode_msg,
  decode_msg-encode_msg, decode_msg_other,
}

abbrev raw : Protobuf (List ℕ)
raw = record { byte_size = length; serialize = λ m. m; parse = some }

raw-IsCodec : IsCodec raw
raw-IsCodec = record { sized = λ m. refl; parsed = λ m. refl }

abbrev two_bytes : List ℕ
two_bytes = 8 ∷ 2 ∷ []

abbrev three_bytes : List ℕ
three_bytes = 8 ∷ 2 ∷ 26 ∷ []

decode_msg-encode_msg_example :
    (decode_msg raw (encode_msg raw three_bytes) ≡ ok (some three_bytes))
    × (decode_hdr (encode_msg raw three_bytes) ≡ length three_bytes)
    × (decode_body raw three_bytes ≡ some three_bytes)
    × (encode_msg raw three_bytes ≡ little_endian (length three_bytes) ++ three_bytes)
decode_msg-encode_msg_example = decode_msg-encode_msg raw raw-IsCodec three_bytes (omega arith)

three_not_two : length two_bytes ≢ length three_bytes
three_not_two = λ e. absurd (omega (arith, e))

decode_msg_other_example :
    decode_msg raw (little_endian (length three_bytes % u32_mod) ++ two_bytes) ≡ aborted
decode_msg_other_example =
    decode_msg_other raw three_bytes two_bytes (omega arith) (omega arith) three_not_two
