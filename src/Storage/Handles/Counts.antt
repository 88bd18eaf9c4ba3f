-- ===== src/Storage/Handles/Counts.antt =====
-- What `Open` and `Close` of storage/storageblock.go do to the count of handles.
use go_tfhfs.Common.{
  ℕ, suc, ◌^◌, ◌<◌, ◌≡◌, refl, Bool, true, false, some, Bytes, [], ◌∷◌, ok, panic, arith,
  if◌then◌else◌, ◌==◌,
}
use go_tfhfs.Storage.Types.{Storage, ◌>>=◌, at, add_count, modify, ℤ, pos, negsuc}
use go_tfhfs.Storage.Refs.{add_external_storage_ref_count}
use go_tfhfs.Storage.Handles.{StorageBlock, open_handle, close_handle, release_job}

one_more : (n : ℕ) → suc n < 2 ^ 31 → add_count n (pos 1) ≡ ok (suc n)
unfolding add_count
one_more n small = ground arith

one_less : (n : ℕ) → add_count (suc n) (negsuc 0) ≡ ok n
unfolding add_count
one_less n = ground arith

-- A handle on a block that is there.
abbrev pub handle : Bytes → ℕ → Bool → StorageBlock
handle id p closed = record { id = id; block = some p; closed = closed }

module _ {B : Type 0} where
  -- The storage with another count of handles on the block at `p`.
  abbrev pub with_handles : ℕ → ℕ → Storage B → Storage B
  with_handles p n s = record s {
    heap = at s.heap p (record (s.heap p) { external_storage_ref_count = n });
  }

  abbrev pub handles : Storage B → ℕ → ℕ
  handles s p = (s.heap p).external_storage_ref_count

  count_steps :
      (p : ℕ) (v : ℤ) (s : Storage B) (n : ℕ)
      → add_count (handles s p) v ≡ ok n
      → add_external_storage_ref_count p v s ≡ ok (n, with_handles p n s)
  unfolding add_external_storage_ref_count modify
  count_steps p v s n e = rw e refl

  open_steps :
      (id : Bytes) (p : ℕ) (s : Storage B) (n : ℕ)
      → add_external_storage_ref_count p (pos 1) s ≡ ok (n, with_handles p n s)
      → open_handle (handle id p false) s ≡ ok (handle id p false, with_handles p n s)
  unfolding open_handle
  open_steps id p s n ran = rw (◌>>=◌, ran) refl

  close_steps :
      (id : Bytes) (p : ℕ) (s : Storage B) (n : ℕ)
      → add_external_storage_ref_count p (negsuc 0) s ≡ ok (n, with_handles p n s)
      → close_handle (handle id p false) s
        ≡ ok ((handle id p true, if n == 0 then release_job id ∷ [] else []), with_handles p n s)
  unfolding close_handle
  close_steps id p s n ran = rw (◌>>=◌, ran) refl

  same_handles : (p n : ℕ) (s : Storage B) → handles (with_handles p n s) p ≡ n
  unfolding at
  same_handles p n s = ground arith

  closed_panics : (id : Bytes) (p : ℕ) (s : Storage B) → close_handle (handle id p true) s ≡ panic
  unfolding close_handle
  closed_panics id p s = refl

  -- On a block with fewer than 2 ^ 31 - 1 handles, `Open` of an open handle gives one that can be
  -- closed once: the block then has as many handles as before, every other block is as it was, and
  -- the storage reference is released exactly if no handle is left. Closing it again panics.
  pub close_handle-open_handle :
      (id : Bytes) (p : ℕ) (s : Storage B)
      → suc (handles s p) < 2 ^ 31
      → (other closed : StorageBlock) × (s₁ s₂ : Storage B) × (open_handle (handle id p false) s
          ≡ ok (other, s₁))
        × (handles s₁ p ≡ suc (handles s p))
        × (close_handle other s₁
            ≡ ok ((closed, if handles s p == 0 then release_job id ∷ [] else []), s₂))
        × (handles s₂ p ≡ handles s p)
        × ((q : ℕ) → (p == q) ≡ false → s₂.heap q ≡ s.heap q)
        × (close_handle closed s₂ ≡ panic)
  unfolding at
  close_handle-open_handle id p s few =
      let n = handles s p in
      let s₁ = with_handles p (suc n) s in
      let s₂ = with_handles p n s₁ in
      (
        handle id p false,
        handle id p true,
        s₁,
        s₂,
        open_steps id p s (suc n) (count_steps p (pos 1) s (suc n) (one_more n few)),
        same_handles p (suc n) s,
        close_steps id p s₁ n
            (count_steps p (negsuc 0) s₁ n (rw (same_handles p (suc n) s) (one_less n))),
        same_handles p n s₁,
        (λ q apart. ground (arith, apart)),
        closed_panics id p s₂,
      )
