-- ===== src/Util.antt =====
-- util/util.go: byte helpers, and the integer helpers of the cache. `IMin` and `IMax` are variadic
-- in the source; every modelled caller passes two arguments.
use go_tfhfs.Common.{
  ℕ, zero, suc, ◌/◌, ◌%◌, ◌^◌, ◌++◌, List, [], ◌∷◌, Bytes, if◌then◌else◌, ltb, ◌==◌,
}
pub mod BigEndian

-- `ConcatBytes`: the slices one after another.
unfoldable pub concat_bytes : List Bytes → Bytes
concat_bytes [] = []
concat_bytes (b ∷ bs) = b ++ concat_bytes bs

unfoldable pub i_min : ℕ → ℕ → ℕ
i_min i v = if ltb v i then v else i

unfoldable pub i_max : ℕ → ℕ → ℕ
i_max i v = if ltb i v then v else i

-- `IOr`: the first of `ints` that is not 0; the argument `i` is never looked at.
unfoldable pub i_or : ℕ → List ℕ → ℕ
i_or i [] = 0
i_or i (v ∷ ints) = if v == 0 then i_or i ints else v
