-- ===== src/Ext4/Tests/Reads.antt =====
-- Runs of the reads.
use spotlight.Base.{
  ℕ, zero, suc, ◌+◌, ◌-◌, ◌/◌, ◌%◌, ◌^◌, ◌≡◌, ◌<◌, min, subst, sym, ◌≢◌, inr, arith, refl,
}
use spotlight.Base.Result.{ok, fault}
use spotlight.Base.Bytes.{slice}
use spotlight.Ext4.Disk.{disk_read}
use spotlight.Ext4.Disk.Laws.{disk_read-slice, disk_read-large}
use spotlight.Ext4.Super.{block_size, bytes2blocks}
use spotlight.Ext4.Inode.{inode_get_size, has_extents}
use spotlight.Ext4.Extents.{extent_get_pblock, block_from_ees, extent_at, header_of}
use spotlight.Ext4.Extents.Tree.{extents}
use spotlight.Ext4.BlockMap.ByExtents.{extent_block}
use spotlight.Ext4.BlockMap.{inode_get_data_pblock, pblock_indirect, extent_fuel}
use spotlight.Ext4.Read.{read_file, first_read}
use spotlight.Ext4.Read.Limits.{first_read-hole, first_read-beyond_4g}
use spotlight.Ext4.Read.Whole.{read_file-content}
use spotlight.Ext4.Tests.Maps.{block_size_1024, file-IsWhole}
use spotlight.Ext4.Read.Content.{file_byte, IsMapped}
use spotlight.Ext4.Read.ByExtents.{read_file-extents}
use spotlight.Ext4.Tests.Files.{disk, super, tree, file, far_file, sparse}

abbrev sparse_block : ℕ → ℕ
sparse_block zero = 5
sparse_block (suc n) = 0

sparse_two_blocks : bytes2blocks super (inode_get_size sparse) ≡ 2
unfolding bytes2blocks block_size inode_get_size
sparse_two_blocks = refl

sparse_mapped : inode_get_data_pblock disk super sparse 0 ≡ ok (5, 1)
unfolding inode_get_data_pblock has_extents pblock_indirect bytes2blocks block_size inode_get_size
sparse_mapped = refl

sparse_hole : inode_get_data_pblock disk super sparse 1 ≡ ok (0, 1)
unfolding inode_get_data_pblock has_extents pblock_indirect bytes2blocks block_size inode_get_size
sparse_hole = refl

sparse-IsMapped : IsMapped disk super sparse sparse_block
sparse-IsMapped zero h = (
  5,
  1,
  sparse_mapped,
  record {
    mapped = refl;
    some_block = omega arith;
    hole = λ e. absurd (omega (arith, e));
    consecutive = λ ne k small. let z : k ≡ 0 = omega arith in rw z refl;
    on_disk = λ ne. omega (arith, block_size_1024);
    narrow = omega arith;
  },
)
sparse-IsMapped (suc zero) h = (
  0,
  1,
  sparse_hole,
  record {
    mapped = refl;
    some_block = omega arith;
    hole = λ e. refl;
    consecutive = λ ne. absurd (ne refl);
    on_disk = λ ne. absurd (ne refl);
    narrow = omega arith;
  },
)
sparse-IsMapped (suc (suc n)) h = absurd (omega (arith, sparse_two_blocks))

pos : 0 < block_size super
pos = omega (arith, block_size_1024)

read_file-extents_example :
    read_file disk super file 600 1000
    ≡ ok (
        slice
          (file_byte disk (block_size super) (extent_block (extents tree)))
          1000
          (min 600 (inode_get_size file - 1000)))
read_file-extents_example =
    read_file-extents disk super file tree 2 (omega (arith, block_size_1024)) file-IsWhole 600 1000
      (omega arith) (omega arith) (omega arith)

in_first_block : sparse_block (100 / block_size super) ≢ 0
in_first_block =
    subst (λ w. sparse_block (100 / w) ≢ 0) (sym block_size_1024) (λ e. omega (arith, e))

read_file-content_example :
    read_file disk super sparse 2000 100
    ≡ ok (
        slice
          (file_byte disk (block_size super) sparse_block)
          100
          (min 2000 (inode_get_size sparse - 100)))
read_file-content_example =
    read_file-content disk super sparse sparse_block pos (omega arith) sparse-IsMapped 2000 100
      (omega arith) (omega arith) (inr (omega arith, in_first_block))

odd_hole : 1100 % block_size super ≢ 0
odd_hole = subst (λ w. 1100 % w ≢ 0) (sym block_size_1024) (λ e. omega (arith, e))

near : (1100 + (100 - 1)) / block_size super < 2 ^ 32
near = subst (λ w. (1100 + (100 - 1)) / w < 2 ^ 32) (sym block_size_1024) (omega arith)

hole_there : inode_get_data_pblock disk super sparse (1100 / block_size super) ≡ ok (0, 1)
hole_there =
    subst (λ w. inode_get_data_pblock disk super sparse (1100 / w) ≡ ok (0, 1))
      (sym block_size_1024) sparse_hole

first_read-hole_example :
    first_read disk super sparse 100 1100
    ≡ ok (
        slice disk.byte
          (1100 % block_size super)
          (min 100 (block_size super - 1100 % block_size super)))
first_read-hole_example =
    first_read-hole disk super sparse pos 100 1100 1 (omega arith) (omega (arith, block_size_1024))
      (omega arith) (omega arith) (omega arith) odd_hole near hole_there

far_mapped : inode_get_data_pblock disk super far_file (2 ^ 22) ≡ ok (5, 2)
unfolding inode_get_data_pblock has_extents extent_get_pblock extent_fuel header_of extent_at
    block_from_ees
far_mapped = refl

abbrev far_offset : ℕ
far_offset = 2 ^ 32 + 100

far_there : inode_get_data_pblock disk super far_file (far_offset / block_size super) ≡ ok (5, 2)
far_there =
    subst (λ w. inode_get_data_pblock disk super far_file (far_offset / w) ≡ ok (5, 2))
      (sym block_size_1024) far_mapped

far_odd : far_offset % block_size super ≢ 0
far_odd = subst (λ w. far_offset % w ≢ 0) (sym block_size_1024) (λ e. omega (arith, e))

far_end : (far_offset + (1000 - 1)) / block_size super < 2 ^ 32
far_end = subst (λ w. (far_offset + (1000 - 1)) / w < 2 ^ 32) (sym block_size_1024) (omega arith)

far_across : block_size super < far_offset % block_size super + 1000
far_across = subst (λ w. w < far_offset % w + 1000) (sym block_size_1024) (omega arith)

first_read-beyond_4g_example : first_read disk super far_file 1000 far_offset ≡ fault
first_read-beyond_4g_example =
    first_read-beyond_4g disk super far_file pos 1000 far_offset 2 5 (omega arith)
      (omega (arith, block_size_1024)) (omega arith) (omega arith) (omega arith) far_across far_odd
      far_end far_there

disk_read-slice_example : disk_read disk 5120 1000 ≡ ok (slice disk.byte 5120 1000)
disk_read-slice_example = disk_read-slice disk 5120 1000 (omega arith) (omega arith)

disk_read-large_example : disk_read disk 0 (2 ^ 31) ≡ fault
disk_read-large_example = disk_read-large disk 0 (2 ^ 31) (omega arith) (omega arith)
