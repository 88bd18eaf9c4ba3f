-- ===== src/Storage/Encoded/Tests.antt =====
-- The codec backend over the in-memory backend, with a codec that puts a counter before the data.
use go_tfhfs.Common.{ℕ, suc, some, ◌∷◌, drop, ◌≡◌, refl}
use go_tfhfs.Codec.{Codec}
use go_tfhfs.Codec.Chains.{IsFaithful}
use go_tfhfs.Storage.Invariant.Loads.{HasOwnIds}
use go_tfhfs.Storage.InMemory.Laws.{in_memory, in_memory-HasOwnIds}
use go_tfhfs.Storage.Encoded.{codec_backend}
use go_tfhfs.Storage.Encoded.Contracts.{
  KeepsData, in_memory-KeepsData, codec_backend-KeepsData, codec_backend-HasOwnIds,
}

abbrev counted : Codec ℕ
counted = record {
  decode_bytes = λ e a. some (drop 1 e);
  encode_bytes = λ r d a. some (r ∷ d, suc r);
}

counted-IsFaithful : IsFaithful counted
counted-IsFaithful = record {
  decodes = λ r r' d a e k. let same : r ∷ d ≡ e = cc in rw (← same) refl;
}

codec_backend-KeepsData_example : KeepsData (codec_backend in_memory counted)
codec_backend-KeepsData_example =
    codec_backend-KeepsData in_memory counted counted-IsFaithful in_memory-KeepsData

codec_backend-HasOwnIds_example : HasOwnIds (codec_backend in_memory counted)
codec_backend-HasOwnIds_example = codec_backend-HasOwnIds in_memory counted in_memory-HasOwnIds
