-- ===== src/Storage/Types.antt =====
-- The data of the block layer: storage/storage_greenpack.go, the structs of storage/block.go and
-- storage/storage.go, the interface of storage/backend.go, and the monad of the storage goroutine.
use go_tfhfs.Common.{
  ℕ, suc, ◌+◌, ◌-◌, ◌^◌, Bool, true, false, Option, none, some, List, [], ◌∷◌, Bytes, Outcome, ok,
  panic, if◌then◌else◌, ltb, leb, ◌==◌, not, map_set,
}
pub use go_tfhfs.Common.{ℤ, pos, negsuc}

pub data BlockStatus : Type 0 where
  bs_unset bs_normal bs_missing bs_want_normal bs_weak bs_want_weak : BlockStatus

-- The byte that stands for a status.
abbrev pub status_byte : BlockStatus → ℕ
status_byte bs_unset = 0
status_byte bs_normal = 1
status_byte bs_missing = 2
status_byte bs_want_normal = 3
status_byte bs_weak = 4
status_byte bs_want_weak = 5

pub record BlockMetadata : Type 0 where
  pub ref_count : ℕ
  pub status : BlockStatus

-- A count in int32 that panics below 0; a sum that wraps around is below 0 too.
unfoldable pub add_count : ℕ → ℤ → Outcome ℕ
add_count n (pos k) = if ltb (n + k) (2 ^ 31) then ok (n + k) else panic
add_count n (negsuc k) = if leb (suc k) n then ok (n - suc k) else panic

-- `Block`. Of its `Backend` only whether it is set matters.
pub record Block : Type 0 where
  pub id : Bytes
  pub ref_count : ℕ
  pub status : BlockStatus
  pub block_data : Option Bytes
  pub has_backend : Bool
  pub stored : Option BlockMetadata
  pub deps : Option (List Bytes)
  pub storage_ref_count : ℕ
  pub external_storage_ref_count : ℕ
  pub have_disk_refs : Bool
  pub have_storage_refs : Bool

abbrev pub metadata : Block → BlockMetadata
metadata b = record { ref_count = b.ref_count; status = b.status }

-- `Backend`, over the state `B` of an implementation. A block id that does not exist is `none`, and
-- a name that does not exist has the empty id.
pub record Backend (B : Type 0) : Type 0 where
  pub get_block_data : B → Bytes → Outcome Bytes
  pub get_block_by_id : B → Bytes → Option Block
  pub delete_block : B → Bytes → Outcome B
  pub store_block : B → Block → Outcome B
  pub update_block : B → Block → Outcome (ℕ × B)
  pub get_block_id_by_name : B → Bytes → Bytes
  pub set_name_to_block_id : B → Bytes → Bytes → Outcome B
  pub flush : B → Outcome B

-- `oldNewStruct`.
pub record OldNew : Type 0 where
  pub old_value : Bytes
  pub new_value : Bytes
  pub got_storage_ref : Bool

pub record Counters : Type 0 where
  pub read : ℕ
  pub read_bytes : ℕ
  pub write : ℕ
  pub write_bytes : ℕ
  pub delete : ℕ

-- `Storage`. Blocks are objects on a heap, and maps and sets hold their addresses.
pub record Storage (B : Type 0) : Type 0 where
  pub backend : B
  pub heap : ℕ → Block
  pub next : ℕ
  pub blocks : List (Bytes × ℕ)
  pub dirty_blocks : List ℕ
  pub dirty_storage_ref_blocks : List ℕ
  pub names : List (Bytes × OldNew)
  pub counters : Counters

-- The steps of the storage goroutine.
abbrev pub M : Type 0 → Type 0 → Type 0
M B A = Storage B → Outcome (A × Storage B)

abbrev pub pure : {A B : Type 0} → A → M B A
pure a s = ok (a, s)

abbrev pub fail : {A B : Type 0} → M B A
fail s = panic

infixl 5 ◌>>=◌ ◌>>◌
abbrev pub ◌>>=◌ : {A B C : Type 0} → M B A → (A → M B C) → M B C
◌>>=◌ m f s = elim (m s) [ ok (a, s') ↦ f a s' | panic ↦ panic ]

abbrev pub ◌>>◌ : {B C : Type 0} → M B (Unit {0}) → M B C → M B C
m >> k = m >>= λ _. k

-- Sets of addresses.
unfoldable pub contains : ℕ → List ℕ → Bool
contains p [] = false
contains p (q ∷ qs) = if q == p then true else contains p qs

unfoldable pub insert : ℕ → List ℕ → List ℕ
insert p qs = if contains p qs then qs else p ∷ qs

unfoldable pub remove : ℕ → List ℕ → List ℕ
remove p [] = []
remove p (q ∷ qs) = if q == p then remove p qs else q ∷ remove p qs

-- Access to the heap, the sets and the counters.
unfoldable pub at : (ℕ → Block) → ℕ → Block → ℕ → Block
at heap p b q = if p == q then b else heap q

-- `self.Status == st` on statuses.
abbrev pub same_status : BlockStatus → BlockStatus → Bool
same_status st st' = status_byte st == status_byte st'

-- A status whose blocks hold references to the blocks that their data names.
abbrev pub has_deps : BlockStatus → Bool
has_deps st = ltb (status_byte st) 3

-- `a == b` on Booleans.
abbrev pub bool_eq : Bool → Bool → Bool
bool_eq true b = b
bool_eq false b = not b

abbrev pub lift : {A B : Type 0} → Outcome A → M B A
lift (ok a) s = ok (a, s)
lift panic s = panic

abbrev pub when : {B : Type 0} → Bool → M B (Unit {0}) → M B (Unit {0})
when c m s = if c then m s else ok (tt, s)

-- A test against nil: what to do without a value, and with one.
abbrev pub case_nil : {A B C : Type 0} → Option A → M B C → (A → M B C) → M B C
case_nil none m f = m
case_nil (some a) m f = f a

abbrev pub is_nil : {A : Type 0} → List A → Bool
is_nil [] = true
is_nil (a ∷ rest) = false

module _ {B : Type 0} where
  abbrev pub get_block : ℕ → M B Block
  get_block p s = ok (s.heap p, s)

  -- Assignments to fields of the block at `p`.
  unfoldable pub modify : ℕ → (Block → Block) → M B (Unit {0})
  unfolding at
  modify p f s = ok (tt, record s { heap = at s.heap p (f (s.heap p)) })

  -- A new object for the block with the id, entered into the map.
  unfoldable pub enter_block : Bytes → Block → Storage B → Storage B
  unfolding at map_set
  enter_block id b s = record s {
    heap = at s.heap s.next b;
    next = suc s.next;
    blocks = map_set id s.next s.blocks;
  }

  abbrev pub set_blocks : List (Bytes × ℕ) → M B (Unit {0})
  set_blocks m s = ok (tt, record s { blocks = m })

  abbrev pub set_dirty : List ℕ → M B (Unit {0})
  set_dirty ps s = ok (tt, record s { dirty_blocks = ps })

  abbrev pub set_dirty_storage_refs : List ℕ → M B (Unit {0})
  set_dirty_storage_refs ps s = ok (tt, record s { dirty_storage_ref_blocks = ps })

  abbrev pub set_backend : B → M B (Unit {0})
  set_backend b s = ok (tt, record s { backend = b })

  abbrev pub set_names : List (Bytes × OldNew) → M B (Unit {0})
  set_names m s = ok (tt, record s { names = m })

  abbrev pub set_counters : Counters → M B (Unit {0})
  set_counters c s = ok (tt, record s { counters = c })

  abbrev pub get : M B (Storage B)
  get s = ok (s, s)
