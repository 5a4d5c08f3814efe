-- ===== src/Fs.antt =====
-- xv6-public/fs.c and fs.h: the file system on the blocks of the one disk. A block is its bytes by
-- offset, and the disk is what `bread` gives for each block, with every change that `log_write` is
-- called for.
pub mod Alloc
pub mod Inode
pub mod Slots
pub mod Free
pub mod Mapping
pub mod Entries
pub mod Bmap
pub mod Write
pub mod WriteLoop
pub mod ReadLoop
pub mod Logged
pub mod Contents
pub mod Path
pub mod Elements
pub mod Resolve
pub mod Namex
pub mod Bitmap
pub mod Scan
pub mod Balloc
mod Tests
use hyu_ele3021_os.Base.{ℕ, ◌+◌, ◌*◌, ◌/◌, Bool, ◌&&◌, ◌==◌, leb, ltb, if◌then◌else◌}

abbrev pub bsize : ℕ
bsize = 512

-- Bitmap bits per block
abbrev pub bpb : ℕ
bpb = bsize * 8

abbrev pub Block : Type 0
Block = ℕ → ℕ

abbrev pub Disk : Type 0
Disk = ℕ → Block

-- The fields of `struct superblock` that fs.c reads.
pub record Superblock : Type 0 where
  pub size : ℕ
  pub ninodes : ℕ
  pub inodestart : ℕ
  pub bmapstart : ℕ

abbrev pub bblock : Superblock → ℕ → ℕ
bblock sb b = b / bpb + sb.bmapstart

-- The disk with one block, or one byte of a block, written.
abbrev pub put_block : Disk → ℕ → Block → Disk
put_block d n x m = if m == n then x else d m

abbrev pub put_byte : Block → ℕ → ℕ → Block
put_byte x i v j = if j == i then v else x j
