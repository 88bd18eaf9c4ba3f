-- ===== src/Codec/Tests.antt =====
-- Instances of the theorems on codecs, with a marshalling by length and trivial parameters.
use go_tfhfs.Common.{
  ℕ, zero, suc, ◌≡◌, ◌≤◌, refl, Option, none, some, [], ◌∷◌, ◌++◌, Bytes, length, take, drop,
  take-append, drop-append, replicate, length-replicate,
}
use go_tfhfs.Codec.{
  Wire, Aead, EncryptedData, CompressedData, CompressionType, ct_unset, ct_plain, ct_snappy,
  ct_zlib, Compressors, encrypting_codec, compressing_codec, codec_chain, compress, unless_longer,
}
use go_tfhfs.Codec.Chains.{IsFaithful, codec_chain-IsFaithful, encrypting_codec-IsFaithful}
use go_tfhfs.Codec.Compression.{IsLossless, compressing_codec_lem, length-unless_longer}

abbrev type_byte : CompressionType → ℕ
type_byte ct_unset = 0
type_byte ct_plain = 1
type_byte ct_snappy = 2
type_byte ct_zlib = 3

abbrev type_of_byte : ℕ → CompressionType
type_of_byte zero = ct_unset
type_of_byte (suc zero) = ct_plain
type_of_byte (suc (suc zero)) = ct_snappy
type_of_byte (suc (suc (suc n))) = ct_zlib

abbrev read_compressed : Bytes → Option CompressedData
read_compressed [] = none
read_compressed (b ∷ bs) = some (record { compression_type = type_of_byte b; raw_data = bs })

abbrev compressed_wire : Wire CompressedData
compressed_wire = record {
  marshal = λ cd. type_byte cd.compression_type ∷ cd.raw_data;
  unmarshal = read_compressed;
}

type_of_byte-type_byte : (ct : CompressionType) → type_of_byte (type_byte ct) ≡ ct
type_of_byte-type_byte ct_unset = refl
type_of_byte-type_byte ct_plain = refl
type_of_byte-type_byte ct_snappy = refl
type_of_byte-type_byte ct_zlib = refl

compressed_wire_lem :
    (cd : CompressedData) → compressed_wire.unmarshal (compressed_wire.marshal cd) ≡ some cd
compressed_wire_lem cd = rw (type_of_byte-type_byte cd.compression_type) refl

abbrev no_compression : Compressors
no_compression = record {
  snappy_encode = λ d. d;
  snappy_decode = λ d. some d;
  zlib_write = λ d. 0 ∷ d;
  zlib_read = λ d. some (drop 1 d);
}

no_compression-IsLossless : IsLossless no_compression
no_compression-IsLossless = record { snappy = λ d. refl; zlib = λ d. refl }

compressing_codec_lem_example :
    (e : Bytes) × ((compressing_codec {R = ℕ} compressed_wire no_compression ct_zlib).encode_bytes 0
        (1 ∷ 2 ∷ [])
        []
      ≡ some (e, 0))
    × (◌≡◌ {A = Option Bytes}
        ((compressing_codec {R = ℕ} compressed_wire no_compression ct_zlib).decode_bytes e [])
        (some (1 ∷ 2 ∷ [])))
compressing_codec_lem_example =
    compressing_codec_lem {R = ℕ} compressed_wire no_compression ct_zlib compressed_wire_lem
      no_compression-IsLossless 0 (1 ∷ 2 ∷ []) []

payload_length :
    length (unless_longer (compress no_compression ct_zlib (7 ∷ [])) (7 ∷ [])).raw_data ≤ 1
payload_length = length-unless_longer no_compression ct_zlib (7 ∷ [])

abbrev read_encrypted : Bytes → Option EncryptedData
read_encrypted [] = none
read_encrypted (n ∷ bs) = some (record { nonce = take n bs; encrypted_data = drop n bs })

abbrev encrypted_wire : Wire EncryptedData
encrypted_wire = record {
  marshal = λ ed. length ed.nonce ∷ (ed.nonce ++ ed.encrypted_data);
  unmarshal = read_encrypted;
}

encrypted_wire_lem :
    (ed : EncryptedData) → encrypted_wire.unmarshal (encrypted_wire.marshal ed) ≡ some ed
encrypted_wire_lem ed =
    rw (take-append ed.nonce ed.encrypted_data, drop-append ed.nonce ed.encrypted_data) refl

-- A cipher that adds the nonce to the front.
abbrev prefix_cipher : Aead
prefix_cipher = record {
  nonce_size = 2;
  seal = λ nonce d a. nonce ++ d;
  open_sealed = λ nonce e a. some (drop (length nonce) e);
}

prefix_cipher_lem :
    (nonce d a : Bytes)
    → length nonce ≡ 2
    → prefix_cipher.open_sealed nonce (prefix_cipher.seal nonce d a) a ≡ some d
prefix_cipher_lem nonce d a h = rw (drop-append nonce d) refl

abbrev zeros : ℕ → ℕ → Option (Bytes × ℕ)
zeros r n = some (replicate n 0, r)

zeros_lem : (r r' n : ℕ) (b : Bytes) → zeros r n ≡ some (b, r') → length b ≡ n
zeros_lem r r' n b e = let same : replicate n 0 ≡ b = cc in rw (← same) (length-replicate n 0)

encrypting_codec-IsFaithful_example :
    IsFaithful (encrypting_codec encrypted_wire prefix_cipher zeros)
encrypting_codec-IsFaithful_example =
    encrypting_codec-IsFaithful encrypted_wire prefix_cipher zeros encrypted_wire_lem zeros_lem
      prefix_cipher_lem

codec_chain-IsFaithful_example :
    IsFaithful (codec_chain (encrypting_codec encrypted_wire prefix_cipher zeros ∷ []))
codec_chain-IsFaithful_example =
    codec_chain-IsFaithful (encrypting_codec encrypted_wire prefix_cipher zeros ∷ [])
      (encrypting_codec-IsFaithful_example, tt)
