-- ===== src/Ext4/Operations/Mode.antt =====
-- The mode that `op_getattr` reports.
use spotlight.Base.{ℕ, ◌/◌, ◌%◌, ◌^◌, ◌≡◌, ◌≤◌, arith}
use spotlight.Ext4.Operations.{clear_bit, without_write}

-- The mode that is reported has none of the three write permissions, keeps the type of the file,
-- and is at most the mode of the inode.
pub without_write-read_only :
    (mode : ℕ)
    → (without_write mode / 2 ^ 7 % 2 ≡ 0)
      × (without_write mode / 2 ^ 4 % 2 ≡ 0)
      × (without_write mode / 2 ^ 1 % 2 ≡ 0)
      × (without_write mode / 2 ^ 12 ≡ mode / 2 ^ 12)
      × (without_write mode ≤ mode)
unfolding without_write clear_bit
without_write-read_only mode = (omega arith, omega arith, omega arith, omega arith, omega arith)
