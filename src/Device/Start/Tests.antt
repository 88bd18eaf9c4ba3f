-- ===== src/Device/Start/Tests.antt =====
-- Tests of the start of the flat device of storage/tree/tree.go.
use go_tfhfs.Common.{
  ℕ, zero, suc, ◌+◌, ◌≤◌, ◌<◌, ◌≡◌, refl, Option, none, some, List, [], ◌∷◌, Bytes, ok, ◌>>=◌,
  arith,
}
use go_tfhfs.Codec.{Codec, Wire, codec_chain, decode_all}
use go_tfhfs.Device.Location.{LocationEntry, OpEntry}
use go_tfhfs.Device.Superblocks.{super_block_offset}
use go_tfhfs.Device.MemoryFile.Reads.{zeros, length-zeros, read_data-pieces, pieces}
use go_tfhfs.Device.MemoryFile.{read_data}
use go_tfhfs.Device.Allocator.{super_block_size}
use go_tfhfs.Device.Superblocks.Offsets.{first_super_block}
use go_tfhfs.Device.Backend.{read_decoded}
use go_tfhfs.Device.Start.{Superblock, Choice, choose}
use go_tfhfs.Device.Start.Rounds.{candidate, Covers}
use go_tfhfs.Device.Start.Newest.{choose-Covers, IsOneOf}

abbrev plain : Codec ℕ
plain = codec_chain []

-- A marshalling by which everything is the same superblock.
abbrev super_block : Superblock
super_block = record {
  generation = 3;
  bytes_used = 65536;
  bytes_total = 65536;
  root_location = [];
  pending = [];
  pending_location = [];
}

abbrev sb_wire : Wire Superblock
sb_wire = record { marshal = λ sb. []; unmarshal = λ b. some super_block }

abbrev ops_wire : Wire (List OpEntry)
ops_wire = record { marshal = λ ops. []; unmarshal = λ b. none }

abbrev nothing_chosen : Choice
nothing_chosen = record { best = none; own_pending = []; own_used = 0 }

abbrev file : Bytes
file = zeros 65536

abbrev one_block : ℕ → Option Superblock
one_block j = some super_block

decoded :
    (ls : List LocationEntry) (b : Bytes)
    → read_data file ls ≡ ok b
    → read_decoded plain file ls ≡ ok (some b)
unfolding read_decoded codec_chain decode_all
decoded ls b e = rw (e, ◌>>=◌) refl

abbrev first_place : List LocationEntry
first_place = record { size = super_block_size; offset = super_block_offset 0 } ∷ []

first_read : candidate plain sb_wire ops_wire file 0 ≡ ok (some super_block)
first_read =
    rw
      (
        decoded first_place (pieces file first_place) (
            read_data-pieces file first_place
              (omega (arith, length-zeros 65536, first_super_block), tt) (omega arith)),
        ◌>>=◌,
      )
      refl

all_read : (j : ℕ) → 0 ≤ j → j < 0 + 1 → candidate plain sb_wire ops_wire file j ≡ ok (one_block j)
all_read zero from until = first_read
all_read (suc j) from until = absurd (omega arith)

choose-Covers_example :
    (self' : Choice) × (choose plain sb_wire ops_wire file 1 0 nothing_chosen ≡ ok self')
    × IsOneOf plain sb_wire ops_wire none one_block 0 1 self'.best
    × Covers self'.best none
    × ((j : ℕ) → 0 ≤ j → j < 0 + 1 → Covers self'.best (one_block j))
choose-Covers_example =
    choose-Covers plain sb_wire ops_wire file 1 0 nothing_chosen one_block all_read
