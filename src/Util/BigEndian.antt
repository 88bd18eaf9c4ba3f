-- ===== src/Util/BigEndian.antt =====
-- `Uint32Bytes` and `Uint64Bytes` of util/util.go, and the `binary.BigEndian` of Go's standard
-- library under them: the bytes of a number, the highest first.
use go_tfhfs.Common.{
  ℕ, zero, suc, ◌+◌, ◌*◌, ◌/◌, ◌%◌, ◌^◌, ◌<◌, ◌≡◌, refl, ap, [], ◌∷◌, ◌++◌, Bytes, length, bytes_lt,
  arith, if◌then◌else◌, ltb, ◌==◌, All,
}

-- The lowest `k` bytes of `n`.
unfoldable pub be_bytes : ℕ → ℕ → Bytes
be_bytes zero n = []
be_bytes (suc k) n = (n / 256 ^ k % 256) ∷ be_bytes k n

-- The number that the bytes spell, after the value `acc` of those read before.
unfoldable pub be_number : ℕ → Bytes → ℕ
be_number acc [] = acc
be_number acc (b ∷ bs) = be_number (acc * 256 + b) bs

unfoldable pub uint32_bytes : ℕ → Bytes
uint32_bytes = be_bytes 4

unfoldable pub uint64_bytes : ℕ → Bytes
uint64_bytes = be_bytes 8

pub length-be_bytes : (k n : ℕ) → length (be_bytes k n) ≡ k
unfolding be_bytes
length-be_bytes zero n = refl
length-be_bytes (suc k) n = ap suc (length-be_bytes k n)

pub be_number-uint64_bytes : (n : ℕ) → n < 2 ^ 64 → be_number 0 (uint64_bytes n) ≡ n
unfolding be_number uint64_bytes be_bytes
be_number-uint64_bytes n h = omega arith

abbrev pub IsByte : ℕ → Type 0
IsByte b = b < 256

pub be_bytes-IsByte : (k n : ℕ) → All IsByte (be_bytes k n)
unfolding be_bytes
be_bytes-IsByte zero n = tt
be_bytes-IsByte (suc k) n = (omega arith, be_bytes-IsByte k n)

be_number_mono :
    (a b : Bytes) (acc acc' : ℕ)
    → length a ≡ length b
    → All IsByte a
    → All IsByte b
    → acc < acc'
    → be_number acc a < be_number acc' b
unfolding be_number
be_number_mono [] [] acc acc' e h k l = l
be_number_mono [] (y ∷ b) acc acc' e h k l = absurd (omega arith)
be_number_mono (x ∷ a) [] acc acc' e h k l = absurd (omega arith)
be_number_mono (x ∷ a) (y ∷ b) acc acc' e h k l =
    be_number_mono a b (acc * 256 + x) (acc' * 256 + y) (omega arith) h.1 k.1 (omega arith)

-- Numbers of equally many bytes compare as their bytes do, whatever follows.
bytes_lt-be_number :
    (a b xs ys : Bytes) (acc : ℕ)
    → length a ≡ length b
    → All IsByte a
    → All IsByte b
    → bytes_lt (a ++ xs) (b ++ ys) ≡ (
        if be_number acc a == be_number acc b
        then bytes_lt xs ys
        else ltb (be_number acc a) (be_number acc b))
unfolding be_number bytes_lt
bytes_lt-be_number [] [] xs ys acc e h k = ground arith
bytes_lt-be_number [] (y ∷ b) xs ys acc e h k = absurd (omega arith)
bytes_lt-be_number (x ∷ a) [] xs ys acc e h k = absurd (omega arith)
bytes_lt-be_number (x ∷ a) (y ∷ b) xs ys acc e h k = ground (
  arith,
  bytes_lt-be_number a b xs ys (acc * 256 + x),
  be_number_mono a b (acc * 256 + x) (acc * 256 + y),
  be_number_mono b a (acc * 256 + y) (acc * 256 + x),
)

pub bytes_lt-uint64_bytes :
    (n m : ℕ) (xs ys : Bytes)
    → n < 2 ^ 64
    → m < 2 ^ 64
    → bytes_lt (uint64_bytes n ++ xs) (uint64_bytes m ++ ys)
      ≡ (if n == m then bytes_lt xs ys else ltb n m)
unfolding uint64_bytes
bytes_lt-uint64_bytes n m xs ys h k = ground (
  arith,
  bytes_lt-be_number (uint64_bytes n) (uint64_bytes m) xs ys 0,
  be_number-uint64_bytes n,
  be_number-uint64_bytes m,
  length-be_bytes 8 n,
  length-be_bytes 8 m,
  be_bytes-IsByte 8 n,
  be_bytes-IsByte 8 m,
)
