-- ===== src/Fs/Alloc.antt =====
-- The block allocator of xv6-public/fs.c: `bzero`, `balloc` and `bfree`. The counters `b` and `b + bi` of
-- `balloc` are `int`s that do not wrap for a disk of fewer than 2 ^ 31 - 4096 blocks.
use hyu_ele3021_os.Base.{
  ℕ, zero, suc, ◌+◌, ◌-◌, ◌/◌, ◌%◌, ◌^◌, Bool, true, false, ◌&&◌, Option, none, some, ◌==◌, ltb,
  if◌then◌else◌,
}
use hyu_ele3021_os.Fs.{bpb, Block, Disk, Superblock, bblock, put_block, put_byte}

-- Bit `k` of a byte, `x & (1 << k)`; and `x | (1 << k)` and `x & ~(1 << k)`.
abbrev pub bit : ℕ → ℕ → Bool
bit x k = x / 2 ^ k % 2 == 1

abbrev pub set_bit : ℕ → ℕ → ℕ
set_bit x k = if bit x k then x else x + 2 ^ k

abbrev pub clear_bit : ℕ → ℕ → ℕ
clear_bit x k = if bit x k then x - 2 ^ k else x

unfoldable pub bzero : Disk → ℕ → Disk
bzero d bno = put_block d bno (λ i. 0)

-- The inner loop of `balloc` with `k` rounds left: the first clear bit from `bi` on.
unfoldable pub scan_bits : ℕ → ℕ → Block → ℕ → ℕ → Option ℕ
scan_bits zero size x b bi = none
scan_bits (suc k) size x b bi = elim (ltb bi bpb && ltb (b + bi) size) [
  | false ↦ none
  | true ↦ elim (bit (x (bi / 8)) (bi % 8)) [
    | false ↦ some bi
    | true ↦ scan_bits k size x b (bi + 1)
  ]
]

abbrev pub mark : Superblock → Disk → ℕ → ℕ → Disk
mark sb d b bi =
    let x = d (bblock sb b) in
    put_block d (bblock sb b) (put_byte x (bi / 8) (set_bit (x (bi / 8)) (bi % 8)))

-- The outer loop of `balloc` with `k` rounds left.
unfoldable pub balloc_from : ℕ → Superblock → Disk → ℕ → Option (Disk × ℕ)
balloc_from zero sb d b = none
balloc_from (suc k) sb d b = elim (ltb b sb.size) [
  | false ↦ none
  | true ↦ elim (scan_bits (bpb + 1) sb.size (d (bblock sb b)) b 0) [
    | some bi ↦ some (bzero (mark sb d b bi) (b + bi), b + bi)
    | none ↦ balloc_from k sb d (b + bpb)
  ]
]

-- `none` is the panic "out of blocks".
unfoldable pub balloc : Superblock → Disk → Option (Disk × ℕ)
balloc sb d = balloc_from (sb.size + 1) sb d 0

-- `none` is the panic "freeing free block".
unfoldable pub bfree : Superblock → Disk → ℕ → Option Disk
bfree sb d b =
    let x = d (bblock sb b) in
    let bi = b % bpb in
    if bit (x (bi / 8)) (bi % 8)
    then some (put_block d (bblock sb b) (put_byte x (bi / 8) (clear_bit (x (bi / 8)) (bi % 8))))
    else none
