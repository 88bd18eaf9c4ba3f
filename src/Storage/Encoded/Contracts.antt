-- ===== src/Storage/Encoded/Contracts.antt =====
-- What the codec backend of storage/codecbackend.go promises, given what the backend below it and
-- its codec promise.
use go_tfhfs.Common.{Option, none, some, Bytes, Outcome, ok, panic, ◌≡◌, refl, ◌>>=◌, sym, ◌∙◌}
use go_tfhfs.Storage.Types.{Block, Backend}
use go_tfhfs.Storage.Invariant.Loads.{HasOwnIds}
use go_tfhfs.Storage.InMemory.Laws.{in_memory, in_memory_stored}
use go_tfhfs.Codec.{Codec}
use go_tfhfs.Codec.Chains.{IsFaithful}
use go_tfhfs.Storage.Encoded.{without_error, encoded_block_data, codec_backend, hide_data}

-- The data of a block that has just been stored are those that were stored.
pub record KeepsData {B : Type 0} (be : Backend B) : Type 0 where
  pub stored :
      (b b' : B) (bl : Block) (d : Bytes)
      → bl.block_data ≡ some d
      → be.store_block b bl ≡ ok b'
      → be.get_block_data b' bl.id ≡ ok d

-- What a step that does not panic gives to the next one.
returned :
    {A B : Type 0} (m : Outcome A) (f : A → Outcome B) (b : B)
    → m >>= f ≡ ok b
    → (a : A) × (m ≡ ok a) × (f a ≡ ok b)
returned panic f b e = cc
returned (ok x) f b e = (x, refl, e)

with_value : {A : Type 0} (o : Option A) (a : A) → without_error o ≡ ok a → o ≡ some a
with_value none a e = cc
with_value (some x) a e = cc

some_inj : {A : Type 0} {a b : A} → some a ≡ some b → a ≡ b
some_inj e = cc

-- The in-memory backend keeps data.
pub in_memory-KeepsData : KeepsData in_memory
in_memory-KeepsData = record { stored = in_memory_stored }

hidden :
    (o : Option Block) (b : Block)
    → hide_data o ≡ some b
    → (a : Block) × (o ≡ some a) × (a.id ≡ b.id)
hidden none b e = cc
hidden (some a) b e = (a, refl, cc)

module _ {B R : Type 0} (be : Backend B) (c : Codec R) where
  reads :
      (s : B × R) (id e d : Bytes)
      → be.get_block_data s.0 id ≡ ok e
      → c.decode_bytes e id ≡ some d
      → encoded_block_data be c s id ≡ ok d
  unfolding encoded_block_data
  reads (b, r) id e d g k = rw (g, ◌>>=◌, k) refl

  -- A codec backend with a faithful codec, over a backend that keeps data, keeps data.
  pub codec_backend-KeepsData : IsFaithful c → KeepsData be → KeepsData (codec_backend be c)
  unfolding codec_backend
  codec_backend-KeepsData faithful keeps = record {
    stored = λ s s' bl d e ran.
        let (d', has, rest) = returned (without_error bl.block_data) _ s' ran in
        let (x, coded, more) = returned (without_error (c.encode_bytes s.1 d' bl.id)) _ s' rest in
        let (b', below, same) =
          returned (be.store_block s.0 (record bl { block_data = some x.0 })) _ s' more in
        let kept : be.get_block_data b' bl.id ≡ ok x.0 =
          keeps.stored s.0 b' (record bl { block_data = some x.0 }) x.0 refl below in
        let decoded = faithful.decodes s.1 x.1 d' bl.id x.0 (with_value _ x coded) in
        let state : b' ≡ s'.0 = cc in
        let given : d' ≡ d = some_inj (sym (with_value _ d' has) ∙ e) in
        reads s' bl.id x.0 d (rw state at kept) (rw given at decoded);
  }

  -- A codec backend finds blocks under their own ids if the backend below it does.
  pub codec_backend-HasOwnIds : HasOwnIds be → HasOwnIds (codec_backend be c)
  unfolding codec_backend
  codec_backend-HasOwnIds own s id b e =
      let (a, at, same) = hidden (be.get_block_by_id s.0 id) b e in sym same ∙ own s.0 id a at
