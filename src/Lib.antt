-- ===== src/Lib.antt =====
-- Spotlight mounts a compressed disk image as a read-only ext4 file system. A read layer
-- (read_layer.c) chooses a reader for the image's compression (compression/) and delivers bytes of
-- the decompressed image; the ext4 implementation (fs/ext4) reads its structures through that layer
-- and answers the calls of FUSE. Paths are below the directory src of the repository.
--
-- Base holds what all parts share: lists and tests over native numbers, machine words with their
-- wrap-around written out (Base/Words), the results of fallible C code (Base/Result: a value, a
-- negative error number, a fault, or fuel that ran out), bytes and little-endian fields
-- (Base/Bytes), and the division of positions into blocks (Base/Blocks). A fault stands for a
-- failed assertion, a null pointer, an access outside a buffer or a division by zero; assertions
-- are enabled, as in the debug build.
--
-- Ext4 models fs/ext4. Ext4/Disk is disk.c (__disk_read, disk_ctx_create, __disk_ctx_read) over an
-- image, the bytes that read_wrapper delivers; Disk/Blocks is its pread_wrapper for systems that
-- read aligned blocks, and Disk/Session the state from disk_open to disk_close, with the reader
-- that read_layer.c keeps. Ext4/Logging is logging.c. Ext4/Super is super.c and the macros of
-- super.h and common.h. Ext4/Extents is extents.c, with the extent trees that it reads (Tree), the
-- search of a leaf (Leaf) and of a tree (Lookup). Ext4/Inode is inode_get_by_number and the struct,
-- with the place of an inode on disk (Location) and its fields (Stored), against the layout of ext4
-- that Ext4/Layout gives byte by byte; Ext4/BlockMap is inode_get_data_pblock, through indirect
-- blocks (Indirect; Routes has the block map of ext2/3 that they are compared with) or extents
-- (ByExtents). Ext4/Read is op_read.c: what a file holds (Content), the first read up to a block
-- boundary (First, Limits), the loop (Loop), and the whole (Whole, ByExtents).
--
-- Ext4/Directory models how inode.c and op_readdir.c go through a directory: the context that holds
-- one block of it (Context), the chain of entries (Entries), an entry found through the context
-- (At), and the listing (Listing). Ext4/Dcache is dcache.c on a heap of entries (Lookup: what is
-- found behind an insertion). Dcache/Rings has the tree that a cache stands for, each list of
-- children closed to a ring by the pointers to siblings: Rotate is the lookup on it, Insert the
-- insertion, over the pointers of Links. Ext4/Path is the lookup of a path in inode.c over it, with
-- its tokens (Token), the search of a name in a directory (Names, Find) and the components of a
-- path (Components). Path/Resolve is the search of a path in an abstract tree of directories, given
-- by a function from inodes to lists of names, and how the code implements it: the prefix that the
-- cache knows (Cached), the walk through the directories, turn by turn (Turn, Walk) and searches
-- one after the other (Sequence). Ext4/Operations has op_getattr, op_open, op_readlink, op_readdir
-- and op_init, and what they and op_read do on the inode that a path leads to (Paths); Attributes
-- has the attributes as they stand on the disk.
--
-- Compression/Reader models compression_reader.c, the raw reader and read_layer.c over any list of
-- readers: the choice of the first that supports the image (Choice) and the reads that go to it.
--
-- Compression/File has the C library reads of the compressed image. Compression/Xz/Lzma lists what
-- xz_reader.c calls of liblzma, as a parameter, with its documented behaviour as the laws
-- DecodesBlock and IsXz. Compression/Xz/Block is read_block (Decode: its loop over lzma_code),
-- Compression/Xz/Read is xz_read over the cache: the invariant of a reader (Valid), one turn of its
-- loop (Turn), what a read delivers (Content), and the disk of the file system on top of it (Disk).
--
-- Compression/Xz/Indexes is parse_block_indexes, xz_is_supported and xz_reader_alloc over a second
-- parameter, IndexLzma, for the decoding of indexes; Locate is the search for a footer, for which
-- one turn more than the position is enough.
--
-- Compression/Gzip models compression/gzip/gzip_reader.c over what it calls of zlib (Zlib), a
-- parameter with its documented behaviour as the record of laws Inflates. Index is
-- check_and_build_index, build_index and index_next_chunk, with the order of the entries (Spacing,
-- and Entries on what keeps it) and the circular window (Window). Access is gzip_is_supported,
-- read_next_chunk, _gzip_read and gzip_read, with its loops (Fill, Skip) and whole reads (Content).
-- Points is the linked list of access points on a heap of entries, which the rest takes as a list:
-- appending (Append), the search along the links (Find) and gzip_reader_free (Release). The
-- uninitialised window of build_index is an argument. Loops around inflate take a number of turns,
-- since what it puts out for an input has no bound the code knows.
--
-- Compression/Xz/Cache models the block cache of compression/xz/xz_reader.c: move_to_cache_head,
-- get_cache_block, add_new_block and free_cache_entries on a heap of entries. Links has the
-- segments of the list, Move the move to the front, Lru the list that the cache promises to be, Get
-- and Put the refinements.
--
-- Fuel: extent_get_pblock recurses on a fuel of 65537, one more than the largest depth that the
-- 16-bit field of a header can state; the loop of op_read on one more than the bytes left, of which
-- each turn reads at least one; the search of the cache on one more than the number of its entries;
-- the listing of a directory, and the search of a name in it, on a fuel that is given, since an
-- entry of length 0 makes the code go on for ever; the walk of a path on its length and one, since
-- each turn goes past a slash; the siblings in the dcache on the number of addresses that were
-- handed out; the loop over lzma_code on the bytes of the file and of the block, since each call
-- reads or writes one; xz_read on the bytes asked for; a token on 256 turns, in which its counter
-- has taken each of its values. The theorems that state a result include that the fuel is enough. A
-- buffer that C fills from the front is the list of the bytes written to it.
--
-- Ext4/Start is fuse-main.c: ext4fuse_is_supported and ext4fuse_main up to the call of fuse, whose
-- parse of the arguments is a parameter; Start/Fuse is the choice of a file system in
-- fuse_implementation.c. Not modelled: the command line of the program (main.c), and the handler of
-- SIGSEGV in fuse-main.c, which logs a backtrace. The locks of disk.c are left out: each read is
-- one step.
pub mod Base
pub mod Compression
pub mod Ext4
