-- ===== src/Storage/Encoded.antt =====
-- The codec backend of storage/codecbackend.go over another backend, with the calls that
-- storage/proxybackend.go passes on. The source of random bytes of the codec is part of its state.
use go_tfhfs.Common.{Bool, true, Option, none, some, Bytes, Outcome, ok, panic, ◌>>=◌}
use go_tfhfs.Storage.Types.{Block, Backend}
use go_tfhfs.Codec.{Codec}
pub mod Contracts
pub mod Tests

abbrev without_error : {A : Type 0} → Option A → Outcome A
without_error none = panic
without_error (some a) = ok a

abbrev hide_data : Option Block → Option Block
hide_data none = none
hide_data (some b) = some (record b { block_data = none; has_backend = true })

abbrev then_with : {B R : Type 0} → R → Outcome B → Outcome (B × R)
then_with r o = o >>= λ b. ok (b, r)

module _ {B R : Type 0} (be : Backend B) (c : Codec R) where
  unfoldable pub encoded_block_data : B × R → Bytes → Outcome Bytes
  encoded_block_data (b, r) id = do
    stored ← be.get_block_data b id
    without_error (c.decode_bytes stored id)

  -- A block without data makes Go follow a nil pointer.
  unfoldable pub encoded_store : B × R → Block → Outcome (B × R)
  encoded_store (b, r) bl = do
    d ← without_error bl.block_data
    (e, r') ← without_error (c.encode_bytes r d bl.id)
    then_with r' (be.store_block b (record bl { block_data = some e }))

  unfoldable pub codec_backend : Backend (B × R)
  unfolding encoded_block_data encoded_store
  codec_backend = record {
    get_block_data = encoded_block_data;
    get_block_by_id = λ s id. hide_data (be.get_block_by_id s.0 id);
    delete_block = λ s id. then_with s.1 (be.delete_block s.0 id);
    store_block = encoded_store;
    update_block = λ s bl. (do (n, b) ← be.update_block s.0 bl; ok (n, (b, s.1)));
    get_block_id_by_name = λ s name. be.get_block_id_by_name s.0 name;
    set_name_to_block_id = λ s name id. then_with s.1 (be.set_name_to_block_id s.0 name id);
    flush = λ s. then_with s.1 (be.flush s.0);
  }
