-- ===== src/Ext4/Tests/Caches.antt =====
-- The cache of directory entries and reads of whole blocks at concrete inputs.
use spotlight.Base.{ℕ, ◌≡◌, ◌==◌, if◌then◌else◌, inr, none, some, List, [], ◌∷◌, arith, refl}
use spotlight.Base.Result.{ok}
use spotlight.Ext4.Dcache.{Dcache, DcacheEntry, dcache_insert, dcache_lookup, dcache_get_inode}
use spotlight.Ext4.Dcache.Lookup.{IsParent, lookup-insert}
use spotlight.Ext4.Disk.{Image, pread}
use spotlight.Ext4.Disk.Blocks.{pread_wrapper, pread_wrapper-pread}

abbrev root_entry : DcacheEntry
root_entry = record { childs = 2; siblings = 0; inode = 2; name = [] }

abbrev home_entry : DcacheEntry
home_entry = record { childs = 0; siblings = 2; inode = 11; name = 104 ∷ [] }

-- The root with one child, `h`.
abbrev dcache : Dcache
dcache = record {
  entry = λ q. if q == 1 then some root_entry else if q == 2 then some home_entry else none;
  fresh = 3;
}

root-IsParent : IsParent dcache 0
root-IsParent = record {
  p = root_entry;
  p_there = refl;
  p_old = omega arith;
  r = root_entry;
  r_there = refl;
  r_set = refl;
  childs = inr (home_entry, refl, omega arith, omega arith);
}

-- The name `ab` in front of a slash.
abbrev path : List ℕ
path = 97 ∷ 98 ∷ 47 ∷ []

lookup-insert_example :
    (dc' : Dcache) × (dc'' : Dcache) × (dcache_insert dcache 0 path 2 12 ≡ ok (3, dc'))
    × (dcache_lookup dc' 0 path 2 ≡ ok (3, dc''))
    × (dcache_get_inode dc'' 3 ≡ ok 12)
lookup-insert_example = lookup-insert dcache 0 2 12 path root-IsParent (omega arith)

abbrev disk : Image
disk = record { size = 3072; byte = λ i. i }

-- A read of the end of one block, a whole one, and the start of a third.
pread_wrapper-pread_example : pread_wrapper disk 1000 1053 ≡ ok (pread disk 1000 1053)
pread_wrapper-pread_example =
    pread_wrapper-pread disk refl 1000 1053 (omega arith) (omega arith) (omega arith)
