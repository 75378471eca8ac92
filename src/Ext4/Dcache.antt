-- ===== src/Ext4/Dcache.antt =====
-- fs/ext4/dcache.c, dcache.h and types/e4f_dcache.h: the cache of directory entries, a tree of
-- circular lists of siblings. `root` stands at an address of its own, and `calloc` hands out the
-- addresses behind it one by one.
pub mod Lookup
pub mod Rings
use spotlight.Base.{
  ℕ, zero, suc, ◌+◌, ◌==◌, ltb, ◌&&◌, if◌then◌else◌, Bool, true, false, not, Option, none, some,
  List, [], get_or, drop, take,
}
use spotlight.Base.Result.{Result, ok, out_of_fuel, ◌>>=◌, ◌>>◌, check, deref}

abbrev pub dcache_entry_name_len : ℕ
dcache_entry_name_len = 40

abbrev pub no_entry : ℕ
no_entry = 0

abbrev pub root : ℕ
root = 1

-- `struct dcache_entry`; the name up to its zero.
pub record DcacheEntry : Type 0 where
  pub childs : ℕ
  pub siblings : ℕ
  pub inode : ℕ
  pub name : List ℕ

-- All entries, and the address that `calloc` returns next.
pub record Dcache : Type 0 where
  pub entry : ℕ → Option DcacheEntry
  pub fresh : ℕ

unfoldable pub store : Dcache → ℕ → DcacheEntry → Dcache
store dc p e = record dc { entry = λ q. if q == p then some e else dc.entry q }

-- Before `dcache_init_root` the root is all zeros.
abbrev pub empty_dcache : Dcache
empty_dcache = record {
  entry = λ q.
      if q == root then some (record { childs = 0; siblings = 0; inode = 0; name = [] }) else none;
  fresh = 2;
}

-- `strncmp` is 0.
unfoldable pub same_string : ℕ → List ℕ → List ℕ → Bool
same_string zero a b = true
same_string (suc n) a b =
    if get_or a 0 0 == get_or b 0 0
    then (if get_or a 0 0 == 0 then true else same_string n (drop 1 a) (drop 1 b))
    else false

-- `dcache_init_root`; none when the root is set already.
unfoldable pub dcache_init_root : Dcache → ℕ → Result (Option Dcache)
dcache_init_root dc n = do
  e ← deref (dc.entry root)
  if e.inode == 0
      then ok (some (store dc root (record e { inode = n; childs = no_entry })))
      else ok none

abbrev pub or_root : ℕ → ℕ
or_root parent = if parent == no_entry then root else parent

-- `dcache_insert`: the new entry is the first child of its parent.
unfoldable pub dcache_insert : Dcache → ℕ → List ℕ → ℕ → ℕ → Result (ℕ × Dcache)
dcache_insert dc parent name namelen n =
    if ltb dcache_entry_name_len (namelen + 1) then ok (no_entry, dc) else do
      r ← deref (dc.entry root)
      check (if parent == no_entry then not (r.inode == 0) else true)
      let new_name = take namelen name
      p ← deref (dc.entry (or_root parent))
      dc ←
          if p.childs == no_entry
          then ok (
              store dc dc.fresh
                (record { childs = no_entry; siblings = dc.fresh; inode = n; name = new_name }))
          else (do
            c ← deref (dc.entry p.childs)
            let dc =
                store dc dc.fresh
                  (record { childs = no_entry; siblings = c.siblings; inode = n; name = new_name })
            ok (store dc p.childs (record c { siblings = dc.fresh })))
      ok (
        dc.fresh,
        record (store dc (or_root parent) (record p { childs = dc.fresh })) {
          fresh = dc.fresh + 1;
        },
      )

-- The loop of `dcache_lookup` over the siblings from `iter` on, up to `first`.
unfoldable pub lookup_from : ℕ → Dcache → ℕ → ℕ → List ℕ → ℕ → Result (ℕ × Dcache)
lookup_from zero dc parent iter name namelen = out_of_fuel
lookup_from (suc fuel) dc parent iter name namelen = do
  c ← deref (dc.entry iter)
  p ← deref (dc.entry parent)
  elim (same_string namelen c.name name && (get_or c.name namelen 0 == 0)) [
    | true ↦ ok (iter, store dc parent (record p { childs = iter }))
    | false ↦ elim (c.siblings == p.childs) [
      | true ↦ ok (no_entry, dc)
      | false ↦ lookup_from fuel dc parent c.siblings name namelen
    ]
  ]

-- `dcache_lookup`: what it finds becomes the first child. There are fewer siblings than addresses.
unfoldable pub dcache_lookup : Dcache → ℕ → List ℕ → ℕ → Result (ℕ × Dcache)
dcache_lookup dc parent name namelen = do
  p ← deref (dc.entry (or_root parent))
  if p.childs == no_entry
      then ok (no_entry, dc)
      else lookup_from dc.fresh dc (or_root parent) p.childs name namelen

-- `dcache_get_inode`
unfoldable pub dcache_get_inode : Dcache → ℕ → Result ℕ
dcache_get_inode dc entry = do e ← deref (dc.entry (or_root entry)); ok e.inode
