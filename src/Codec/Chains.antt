-- ===== src/Codec/Chains.antt =====
-- Chains of codecs: codec/codec.go.
use go_tfhfs.Common.{
  ◌≡◌, refl, Option, none, some, List, [], ◌∷◌, ◌++◌, Bytes, reverse, All, arith, ◌∙◌, ℕ, length,
}
use mathlib.Core.List.{reverse-cons}
use go_tfhfs.Codec.{
  ◌>>=◌, Codec, codec_chain, decode_all, encode_all, encrypting_codec, Wire, Aead, EncryptedData,
}

-- What a codec encodes it decodes.
pub record IsFaithful {R : Type 0} (c : Codec R) : Type 0 where
  pub decodes :
      (r r' : R) (d a e : Bytes) → c.encode_bytes r d a ≡ some (e, r') → c.decode_bytes e a ≡ some d

-- What a successful step gives to the next one.
passed :
    {A B : Type 0} (m : Option A) (f : A → Option B) (b : B)
    → m >>= f ≡ some b
    → (a : A) × (m ≡ some a) × (f a ≡ some b)
passed none f b e = cc
passed (some x) f b e = (x, refl, e)

module _ {R : Type 0} where
  -- The last codec of a chain encodes what those before it give.
  last_step :
      (cs : List (Codec R)) (c : Codec R) (r r' : R) (d a e : Bytes)
      → encode_all (cs ++ (c ∷ [])) r d a ≡ some (e, r')
      → (m : Bytes) × (q : R) × (encode_all cs r d a ≡ some (m, q))
        × (c.encode_bytes q m a ≡ some (e, r'))
  unfolding encode_all
  last_step [] c r r' d a e h =
      let (x, at, same) = passed (c.encode_bytes r d a) _ (e, r') h in (d, r, refl, at ∙ same)
  last_step (b ∷ cs) c r r' d a e h =
      let (x, at, rest) = passed (b.encode_bytes r d a) _ (e, r') h in
      let (m, q, before, last) = last_step cs c x.1 r' x.0 a e rest in
      (m, q, rw (at, ◌>>=◌) before, last)

  decode_all-encode_all :
      (cs : List (Codec R)) (r r' : R) (d a e : Bytes)
      → All (λ c. IsFaithful c) cs
      → encode_all (reverse cs) r d a ≡ some (e, r')
      → decode_all cs e a ≡ some d
  unfolding encode_all decode_all
  decode_all-encode_all [] r r' d a e h k = ground arith
  decode_all-encode_all (c ∷ cs) r r' d a e h k =
      let (m, q, before, last) =
        last_step (reverse cs) c r r' d a e (rw (reverse-cons c cs) at k) in
      rw (h.0.decodes q r' m a e last, ◌>>=◌) (decode_all-encode_all cs r q d a m h.1 before)

  -- A chain of faithful codecs is faithful: what it encodes, in reverse order, it decodes.
  pub codec_chain-IsFaithful :
      (cs : List (Codec R)) → All (λ c. IsFaithful c) cs → IsFaithful (codec_chain cs)
  unfolding codec_chain
  codec_chain-IsFaithful cs h = record {
    decodes = λ r r' d a e k. decode_all-encode_all cs r r' d a e h k;
  }

  -- The encrypting codec is faithful where the marshalling gives back what it took, the source of
  -- random bytes gives as many as it is asked for, and the cipher opens what it seals with a nonce
  -- of its size.
  pub encrypting_codec-IsFaithful :
      (wire : Wire EncryptedData) (gcm : Aead) (read : R → ℕ → Option (Bytes × R))
      → ((ed : EncryptedData) → wire.unmarshal (wire.marshal ed) ≡ some ed)
      → ((r r' : R) (n : ℕ) (b : Bytes) → read r n ≡ some (b, r') → length b ≡ n)
      → ((nonce d a : Bytes)
          → length nonce ≡ gcm.nonce_size
          → gcm.open_sealed nonce (gcm.seal nonce d a) a ≡ some d)
      → IsFaithful (encrypting_codec wire gcm read)
  unfolding encrypting_codec
  encrypting_codec-IsFaithful wire gcm read w rd g = record {
    decodes = λ r r' d a e k.
        let (x, at, same) = passed (read r gcm.nonce_size) _ (e, r') k in
        let ed : EncryptedData = record { nonce = x.0; encrypted_data = gcm.seal x.0 d a } in
        let written : wire.marshal ed ≡ e = cc in
        rw (← written, w ed) (g x.0 d a (rd r x.1 gcm.nonce_size x.0 at));
  }
