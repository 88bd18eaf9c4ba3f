-- ===== src/Codec/Compression.antt =====
-- The compressing codec of codec/codec.go.
use go_tfhfs.Common.{◌≤◌, ◌≡◌, refl, Option, some, Bytes, length, arith}
use go_tfhfs.Codec.{
  CompressionType, ct_plain, ct_unset, ct_snappy, ct_zlib, CompressedData, Compressors, Wire,
  compress, unless_longer, decompress, compressing_codec,
}

-- The compressors give back what they took.
pub record IsLossless (cs : Compressors) : Type 0 where
  pub snappy : (d : Bytes) → cs.snappy_decode (cs.snappy_encode d) ≡ some d
  pub zlib : (d : Bytes) → cs.zlib_read (cs.zlib_write d) ≡ some d

-- Whatever the compressors do, the payload is never longer than the data.
pub length-unless_longer :
    (cs : Compressors) (ct : CompressionType) (d : Bytes)
    → length (unless_longer (compress cs ct d) d).raw_data ≤ length d
unfolding compress unless_longer
length-unless_longer cs ct_unset d = ground arith
length-unless_longer cs ct_plain d = ground arith
length-unless_longer cs ct_snappy d = ground arith
length-unless_longer cs ct_zlib d = ground arith

decompress-compress :
    (cs : Compressors) (ct : CompressionType) (d : Bytes)
    → IsLossless cs
    → decompress cs (unless_longer (compress cs ct d) d) ≡ some d
unfolding compress unless_longer decompress
decompress-compress cs ct_unset d h = ground (arith, h.snappy d)
decompress-compress cs ct_plain d h = ground arith
decompress-compress cs ct_snappy d h = ground (arith, h.snappy d)
decompress-compress cs ct_zlib d h = ground (arith, h.zlib d)

-- With lossless compressors and a faithful marshalling, encoding always succeeds and decoding gives
-- the data back, for every compression type.
pub compressing_codec_lem :
    {R : Type 0} (wire : Wire CompressedData) (cs : Compressors) (ct : CompressionType)
    → ((cd : CompressedData) → wire.unmarshal (wire.marshal cd) ≡ some cd)
    → IsLossless cs
    → (r : R) (d a : Bytes)
    → (e : Bytes) × ((compressing_codec wire cs ct).encode_bytes r d a ≡ some (e, r))
      × (◌≡◌ {A = Option Bytes} ((compressing_codec {R = R} wire cs ct).decode_bytes e a) (some d))
unfolding compressing_codec
compressing_codec_lem wire cs ct w h r d a = (
  wire.marshal (unless_longer (compress cs ct d) d),
  refl,
  rw (w (unless_longer (compress cs ct d) d)) (decompress-compress cs ct d h),
)
