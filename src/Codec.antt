-- ===== src/Codec.antt =====
-- codec/codec.go: transformations of byte slices, each with the id of the block as additional data.
-- The cipher, the compressors, the source of random bytes and the generated marshalling are
-- parameters; an error is `none`.
use go_tfhfs.Common.{
  ℕ, ◌+◌, Bool, true, false, Option, none, some, List, [], ◌∷◌, Bytes, length, leb, if◌then◌else◌,
  reverse, ◌≡◌, ◌&&◌, not,
}
pub mod Chains
pub mod Compression
pub mod Tests

infixl 5 ◌>>=◌
abbrev pub ◌>>=◌ : {A B : Type 0} → Option A → (A → Option B) → Option B
none >>= f = none
some a >>= f = f a

-- A codec over a source of random bytes in a state `R`.
pub record Codec (R : Type 0) : Type 0 where
  pub decode_bytes : Bytes → Bytes → Option Bytes
  pub encode_bytes : R → Bytes → Bytes → Option (Bytes × R)

pub record EncryptedData : Type 0 where
  pub nonce : Bytes
  pub encrypted_data : Bytes

pub data CompressionType : Type 0 where
  ct_unset ct_plain ct_snappy ct_zlib : CompressionType

pub record CompressedData : Type 0 where
  pub compression_type : CompressionType
  pub raw_data : Bytes

-- Generated marshalling.
pub record Wire (A : Type 0) : Type 0 where
  pub marshal : A → Bytes
  pub unmarshal : Bytes → Option A

-- `cipher.AEAD`.
pub record Aead : Type 0 where
  pub nonce_size : ℕ
  pub seal : Bytes → Bytes → Bytes → Bytes
  pub open_sealed : Bytes → Bytes → Bytes → Option Bytes

-- `EncryptingCodec`; `rand.Read` gives bytes or an error.
unfoldable pub encrypting_codec :
    {R : Type 0} → Wire EncryptedData → Aead → (R → ℕ → Option (Bytes × R)) → Codec R
encrypting_codec wire gcm read = record {
  decode_bytes = λ block_data additional. (do
    ed ← wire.unmarshal block_data
    gcm.open_sealed ed.nonce ed.encrypted_data additional);
  encode_bytes = λ r block_data additional. (do
    (nonce, r') ← read r gcm.nonce_size
    some (
      wire.marshal
          (record { nonce = nonce; encrypted_data = gcm.seal nonce block_data additional }),
      r',
    ));
}

-- The compressors of snappy and zlib.
pub record Compressors : Type 0 where
  pub snappy_encode : Bytes → Bytes
  pub snappy_decode : Bytes → Option Bytes
  pub zlib_write : Bytes → Bytes
  pub zlib_read : Bytes → Option Bytes

-- The first half of `CompressingCodec.EncodeBytes`.
unfoldable pub compress : Compressors → CompressionType → Bytes → CompressedData
compress cs ct_zlib block_data = record {
  compression_type = ct_zlib;
  raw_data = cs.zlib_write block_data;
}
compress cs ct_unset block_data = record {
  compression_type = ct_snappy;
  raw_data = cs.snappy_encode block_data;
}
compress cs ct_snappy block_data = record {
  compression_type = ct_snappy;
  raw_data = cs.snappy_encode block_data;
}
compress cs ct_plain block_data = record { compression_type = ct_plain; raw_data = block_data }

abbrev pub is_plain : CompressionType → Bool
is_plain ct_plain = true
is_plain _ = false

-- Data that do not get shorter are stored as they are.
unfoldable pub unless_longer : CompressedData → Bytes → CompressedData
unless_longer cd block_data =
    if not (is_plain cd.compression_type) && leb (length block_data) (length cd.raw_data)
    then record { compression_type = ct_plain; raw_data = block_data }
    else cd

-- The switch of `CompressingCodec.DecodeBytes`; no type gives no data and no error.
unfoldable pub decompress : Compressors → CompressedData → Option Bytes
decompress cs cd = elim cd.compression_type [
  | ct_unset ↦ some []
  | ct_plain ↦ some cd.raw_data
  | ct_snappy ↦ cs.snappy_decode cd.raw_data
  | ct_zlib ↦ cs.zlib_read cd.raw_data
]

unfoldable pub compressing_codec :
    {R : Type 0} → Wire CompressedData → Compressors → CompressionType → Codec R
unfolding compress unless_longer decompress
compressing_codec wire cs ct = record {
  decode_bytes = λ block_data additional. (do cd ← wire.unmarshal block_data; decompress cs cd);
  encode_bytes = λ r block_data additional.
      some (wire.marshal (unless_longer (compress cs ct block_data) block_data), r);
}

-- The loops of `CodecChain`.
unfoldable pub decode_all : {R : Type 0} → List (Codec R) → Bytes → Bytes → Option Bytes
decode_all [] block_data additional = some block_data
decode_all (c ∷ cs) block_data additional = do
  ret ← c.decode_bytes block_data additional
  decode_all cs ret additional

unfoldable pub encode_all : {R : Type 0} → List (Codec R) → R → Bytes → Bytes → Option (Bytes × R)
encode_all [] r block_data additional = some (block_data, r)
encode_all (c ∷ cs) r block_data additional = do
  (ret, r') ← c.encode_bytes r block_data additional
  encode_all cs r' ret additional

-- `CodecChain`: decoding goes through the codecs in the order given, and encoding in reverse.
unfoldable pub codec_chain : {R : Type 0} → List (Codec R) → Codec R
unfolding decode_all encode_all
codec_chain codecs = record {
  decode_bytes = decode_all codecs;
  encode_bytes = encode_all (reverse codecs);
}
