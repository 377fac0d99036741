-- ===== src/Wire/Codec.antt =====
-- The framing of src-cpp/common/message.cc: `encode_msg`, `decode_hdr`, `decode_body` and `decode_msg`.
-- The protobuf library is a parameter. A buffer is a list of bytes, exactly as long as its size.
use chain_replication.Base.{
  ℕ, ◌+◌, ◌*◌, ◌/◌, ◌%◌, ◌<◌, ◌≡◌, ◌≢◌, sym, ap, ◌∙◌, Option, none, some, List, [], ◌∷◌, ◌++◌,
  length, arith, ◌==◌, u32_mod, if◌then◌else◌,
}
use chain_replication.Exec.{Result, ok, aborted}

-- What the library does to one type of message.
pub record Protobuf (M : Type 0) : Type 0 where
  pub byte_size : M → ℕ
  pub serialize : M → List ℕ
  -- `none` when the bytes are no message.
  pub parse : List ℕ → Option M

-- What the library documents.
pub record IsCodec {M : Type 0} (pb : Protobuf M) : Type 0 where
  pub sized : (m : M) → length (pb.serialize m) ≡ pb.byte_size m
  pub parsed : (m : M) → pb.parse (pb.serialize m) ≡ some m

-- `WriteLittleEndian32`
abbrev pub little_endian : ℕ → List ℕ
little_endian n = n % 256 ∷ n / 256 % 256 ∷ n / 65536 % 256 ∷ n / 16777216 % 256 ∷ []

-- `ReadLittleEndian32`, with the bytes that are left.
unfoldable pub read_size : List ℕ → Option (ℕ × List ℕ)
read_size (a ∷ b ∷ c ∷ d ∷ rest) = some (a + b * 256 + c * 65536 + d * 16777216, rest)
read_size _ = none

abbrev size_or_zero : Option (ℕ × List ℕ) → ℕ
size_or_zero none = 0
size_or_zero (some r) = r.0

unfoldable pub decode_hdr : List ℕ → ℕ
decode_hdr buf = size_or_zero (read_size buf)

module _ {M : Type 0} (pb : Protobuf M) where
  -- Into a buffer that is long enough, as all callers have it.
  unfoldable pub encode_msg : M → List ℕ
  encode_msg msg = little_endian (pb.byte_size msg % u32_mod) ++ pb.serialize msg

  unfoldable pub decode_body : List ℕ → Option M
  decode_body buf = pb.parse buf

  -- The size in the header is asserted to be that of the rest. The sum is of type `uint32_t`.
  abbrev pub decode_sized : ℕ → Option (ℕ × List ℕ) → Result (Option M)
  decode_sized buf_size none = ok none
  decode_sized buf_size (some r) =
      if buf_size % u32_mod == (r.0 + 4) % u32_mod then ok (pb.parse r.1) else aborted

  unfoldable pub decode_msg : List ℕ → Result (Option M)
  decode_msg buf = decode_sized (length buf) (read_size buf)

little_endian_lem :
    (n : ℕ)
    → n < u32_mod
    → n % 256 + n / 256 % 256 * 256 + n / 65536 % 256 * 65536 + n / 16777216 % 256 * 16777216 ≡ n
little_endian_lem n h = omega arith

read_size_lem :
    (n : ℕ) (rest : List ℕ)
    → n < u32_mod
    → read_size (little_endian (n % u32_mod) ++ rest) ≡ some (n, rest)
unfolding read_size
read_size_lem n rest h =
    ap (λ k. some (k, rest)) (little_endian_lem (n % u32_mod) (omega arith) ∙ small)
  where
    small : n % u32_mod ≡ n
    small = omega arith

decode_framed :
    {M : Type 0} (pb : Protobuf M) (n : ℕ) (rest : List ℕ)
    → n < u32_mod
    → decode_msg pb (little_endian (n % u32_mod) ++ rest)
      ≡ decode_sized pb (length rest + 4) (some (n, rest))
unfolding decode_msg
decode_framed pb n rest h =
    ap (decode_sized pb (length (little_endian (n % u32_mod) ++ rest))) (read_size_lem n rest h)
    ∙ ap (λ (k : ℕ). decode_sized pb k (some (n, rest))) four
  where
    four : length (little_endian (n % u32_mod) ++ rest) ≡ length rest + 4
    four = omega arith

module _ {M : Type 0} (pb : Protobuf M) (codec : IsCodec pb) (msg : M) where
  -- Let the message with its header be shorter than 2 ^ 32 bytes. Then the receiver of a datagram
  -- reads back the message that was sent; the receiver of a stream reads its size from the header
  -- and the message from what follows it.
  pub decode_msg-encode_msg :
      pb.byte_size msg + 4 < u32_mod
      → (decode_msg pb (encode_msg pb msg) ≡ ok (some msg))
        × (decode_hdr (encode_msg pb msg) ≡ length (pb.serialize msg))
        × (decode_body pb (pb.serialize msg) ≡ some msg)
        × (encode_msg pb msg ≡ little_endian (length (pb.serialize msg)) ++ pb.serialize msg)
  unfolding decode_hdr decode_body encode_msg
  decode_msg-encode_msg h = (
    decode_framed pb (pb.byte_size msg) (pb.serialize msg) (omega arith)
        ∙ ground (arith, codec.sized msg, codec.parsed msg),
    ap size_or_zero (read_size_lem (pb.byte_size msg) (pb.serialize msg) (omega arith))
        ∙ sym (codec.sized msg),
    codec.parsed msg,
    ap (λ (n : ℕ). little_endian n ++ pb.serialize msg) size,
  )
    where
      size : pb.byte_size msg % u32_mod ≡ length (pb.serialize msg)
      size = omega (arith, codec.sized msg)

module _ {M : Type 0} (pb : Protobuf M) (msg : M) where
  -- A datagram that is cut short or has bytes to spare, and is shorter than 2 ^ 32, fails the
  -- assertion on its size if its header is that of the message.
  pub decode_msg_other :
      (rest : List ℕ)
      → pb.byte_size msg + 4 < u32_mod
      → length rest + 4 < u32_mod
      → length rest ≢ pb.byte_size msg
      → decode_msg pb (little_endian (pb.byte_size msg % u32_mod) ++ rest) ≡ aborted
  decode_msg_other rest h k ne =
      decode_framed pb (pb.byte_size msg) rest (omega arith) ∙ ground (arith, ne)
