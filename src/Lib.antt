-- ===== src/Lib.antt =====
-- A model of go-tfhfs, a file system that keeps its tree of entries in encrypted,
-- content-addressed blocks, and what is proved of it. Paths are those of the repository.
--
-- The program's parts, from the device up:
-- - A backend stores blocks by id, and names of blocks (storage/backend.go). There are one in
--   memory (storage/inmemory), one on a flat device (storage/tree), and one that encrypts and
--   compresses for another (storage/codecbackend.go, with the codecs of codec).
-- - The block layer (storage/block.go, storage/storage.go, storage/storagejob.go) counts
--   references to blocks, keeps changed blocks and names until a flush, and loads blocks from
--   a backend. One goroutine runs the jobs that the rest of the program sends to it.
-- - A B+ tree of immutable nodes (ibtree) maps keys to values; its nodes are blocks. A stack
--   walks from the root to a leaf, copies the nodes that change, and remembers loaded ones.
-- - The file system (fs) keeps inodes, directories and extents as entries of such a tree.
--
-- The files:
-- - Common: bytes, lists and maps of Go, and the outcome of code that may panic. Util:
--   util/util.go.
-- - Codec: codec/codec.go; its codecs are records of two functions, over a source of random
--   bytes. Chains and Compression hold the round trips.
-- - Device: storage/tree. Location is locationentry.go and locationslice.go (`to_key_so` is
--   ToKeySO, and so on), Superblocks the counting of superblocks in tree.go, MemoryFile the
--   in-memory file of persist.go. Allocator is the free space of tree.go: a `TreeBackend T` is
--   its state over a tree in a state `T`, with a function for each method (`allocate_slice` is
--   allocateSlice). Devices says when a device is sound, Places and FreeTrees are about the
--   two trees of free places, and Searching is the search for a place. Backend is the blocks
--   of tree.go, a `TreeStore` with its file and codec; Rows says what a device holds, and
--   Reads is about the calls that read. Start is the choice of a superblock in Init.
-- - Storage: Types is the state, `Storage B` over the state `B` of a backend. Blocks are
--   objects on a heap and the maps and sets hold addresses, as the pointers of the source do.
--   Refs, Blocks, Names and Jobs hold a function for each method of block.go, storage.go and
--   storagejob.go (`add_ref_count` is addRefCount); `run_job` is a round of the loop in
--   Storage.run, and `run` is that loop. Handles is Open and Close of storageblock.go.
--   InMemory is storage/inmemory/inmemory.go, Encoded the codec backend, and BlockNames the
--   names of nameinblock.go over the calls of a block backend, which InMemory/Names fills; the
--   first two are instances of the record `Backend`, for which the block layer is stated.
--   Invariant holds the invariant of the block layer, a file for each file of operations;
--   Invariant/Releases is about the set of blocks whose storage references a flush looks at.
-- - IbTree: Node is the types and the check of a node, BinarySearch is sort.Search, Stack and
--   Walk the search of ibstack.go, its steps to the next and the previous leaf, and Get,
--   NextKey and PrevKey of ibtree.go. Edit is the copying of nodes, Edit/Oversized Set of
--   ibtree.go up to its commit, and Delta is IterateDelta of delta.go, whose callback is the
--   list of its calls. KeyTree is the interface through which the rest of the program uses a
--   tree, with what it relies on when it reads, which KeyTree/Transactions proves of the
--   transactions of ibtransaction.go, and SubTree the subtrees over it. Walk/Contents says
--   what a tree holds and when it is in order; Stack/Cache is about the remembered nodes,
--   Walk/Paths and Walk/Ways about the entries on both sides of the way of a stack, and
--   Delta/Places about the entries that a stack of IterateDelta has left.
-- - Fs: BlockKey is fs/blockkey.go, with FNV-1 written out. Merge is MergeTo3 of merge.go,
--   over the changes of Delta and the tree of KeyTree.
--
-- Bounds and fuel. Numbers are natural numbers; uint64 sums wrap around (`% 2 ^ 64`), and an
-- int32 count that leaves its range panics, as the source's own checks do. The loops that end
-- by the size of a list or of a slice are recursions on it. The search takes
-- `maximum_tree_depth` rounds, after which Go's own stack is full and panics, and so do the
-- steps to a neighbour leaf. IterateDelta is on fuel: one round more than there are entries,
-- and two for each node, is shown to be enough. The count of superblocks is on fuel, of which
-- 12 rounds are shown to be enough below 2 ^ 60 bytes. Growth of the device, with 12 rounds,
-- and an allocation, with two, panic without fuel, and so does a flush of the storage, which
-- repeats until nothing is dirty; that some fuel is enough for these is not shown.
--
-- Go maps are lists of entries (that of the names in a block may be nil), so that an iteration
-- visits them in the list's order. Whether two child nodes are the same pointer is a parameter
-- of IterateDelta, of which only what it says of the same pointers is relied on. Whether the
-- tree's root is the node that the stack starts from, which Go tells by pointers, is an
-- argument.
--
-- Parameters. The callback that names the blocks to which a block's data refer, the loader of
-- nodes, Set and Delete of a transaction (which end with the commit), the size of a written
-- node and the marshalling and unmarshalling, of the metadata of inodes too (generated code),
-- DeleteRange of a merge, the cipher, the compressors and the source of random bytes are
-- parameters. Hypotheses on them stand in the theorems that use them; there is none on Set and
-- Delete, so that the operations that write on the flat device and in merges are definitions
-- of which nothing is shown; an allocation, a release and a local merge are run in tests.
--
-- Not modelled: the flush of the flat device, the commit of a tree with its balancing, the
-- hugger, the methods of a handle that only read or send a job, inodes and file operations,
-- the server and the connector, the backends on files and on Badger, logging, and the
-- generated code.
pub mod Codec
pub mod Common
pub mod Device
pub mod Fs
pub mod IbTree
pub mod Storage
pub mod Util
