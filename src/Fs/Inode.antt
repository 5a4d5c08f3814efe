-- ===== src/Fs/Inode.antt =====
-- The contents of an inode in xv6-public/fs.c: `bmap`, `readi` and what `writei` writes. The caller
-- holds the inode's lock, and the inode is no device. `none` is a panic.
use hyu_ele3021_os.Base.{
  ℕ, zero, suc, ◌+◌, ◌-◌, ◌*◌, ◌/◌, ◌%◌, ◌^◌, Bool, true, false, ◌&&◌, ◌||◌, Option, none, some,
  List, [], ◌∷◌, ◌++◌, ◌==◌, ltb, leb, if◌then◌else◌, get_or, set, drop,
}
use hyu_ele3021_os.Base.Words.{add32}
use hyu_ele3021_os.CString.{◌>>=◌}
use hyu_ele3021_os.Fs.{bsize, Block, Disk, Superblock, put_block}
use hyu_ele3021_os.Fs.Alloc.{balloc}

abbrev pub ndirect : ℕ
ndirect = 7

abbrev pub nindirect : ℕ
nindirect = 128

abbrev pub maxfile : ℕ
maxfile = ndirect + nindirect

-- `struct inode`: the fields that its contents depend on; `addrs` has NDIRECT + 1 entries.
pub record Inode : Type 0 where
  pub size : ℕ
  pub addrs : List ℕ

-- The `i`-th `uint` of a block, lowest byte first.
abbrev pub word : Block → ℕ → ℕ
word x i = x (4 * i) + 256 * x (4 * i + 1) + 65536 * x (4 * i + 2) + 16777216 * x (4 * i + 3)

abbrev pub put_word : Block → ℕ → ℕ → Block
put_word x i v j = if j / 4 == i then v / 256 ^ (j % 4) % 256 else x j

abbrev pub addr : Inode → ℕ → ℕ
addr ip i = get_or ip.addrs i 0

abbrev pub put_addr : Inode → ℕ → ℕ → Inode
put_addr ip i a = record ip { addrs = set ip.addrs i a }

-- `addrs[i]`, or a new block in its place.
unfoldable pub addr_or_new : Superblock → Disk → Inode → ℕ → Option (Disk × Inode × ℕ)
addr_or_new sb d ip i =
    if addr ip i == 0
    then (balloc sb d >>= λ r. some (r.0, put_addr ip i r.1, r.1))
    else some (d, ip, addr ip i)

-- Entry `i` of the indirect block `b`, or a new block in its place.
unfoldable pub entry_or_new : Superblock → Disk → ℕ → ℕ → Option (Disk × ℕ)
entry_or_new sb d b i =
    if word (d b) i == 0
    then (balloc sb d >>= λ r. some (put_block r.0 b (put_word (r.0 b) i r.1), r.1))
    else some (d, word (d b) i)

unfoldable pub bmap : Superblock → Disk → Inode → ℕ → Option (Disk × Inode × ℕ)
bmap sb d ip bn =
    if ltb bn ndirect
    then addr_or_new sb d ip bn
    else (if ltb (bn - ndirect) nindirect
        then (addr_or_new sb d ip ndirect >>= λ r.
            entry_or_new sb r.0 r.2 (bn - ndirect) >>= λ e. some (e.0, r.1, e.1))
        else none)

-- `min(n - tot, BSIZE - off%BSIZE)`, with `left` for `n - tot`.
abbrev pub part : ℕ → ℕ → ℕ
part left off = if ltb left (bsize - off % bsize) then left else bsize - off % bsize

-- `memmove(dst, bp->data + o, m)`
abbrev pub bytes : Block → ℕ → ℕ → List ℕ
bytes x o zero = []
bytes x o (suc m) = x o ∷ bytes x (o + 1) m

-- The loop of `readi` with `left` bytes to read and `k` rounds: what is put at `dst`.
unfoldable pub read_loop : ℕ → Superblock → Disk → Inode → ℕ → ℕ → Option (Disk × Inode × List ℕ)
read_loop zero sb d ip off left = if left == 0 then some (d, ip, []) else none
read_loop (suc k) sb d ip off left = elim (left == 0) [
  | true ↦ some (d, ip, [])
  | false ↦ bmap sb d ip (off / bsize) >>= λ r.
      read_loop k sb r.0 r.1 (off + part left off) (left - part left off) >>= λ rest.
      some (rest.0, rest.1, bytes (r.0 r.2) (off % bsize) (part left off) ++ rest.2)
]

-- What is read, unless it is -1.
unfoldable pub readi : Superblock → Disk → Inode → ℕ → ℕ → Option (Disk × Inode × Option (List ℕ))
readi sb d ip off n =
    let n' = if ltb ip.size (add32 off n) then ip.size - off else n in
    if ltb ip.size off || ltb (add32 off n) off
    then some (d, ip, none)
    else (read_loop n' sb d ip off n' >>= λ r. some (r.0, r.1, some r.2))

-- `memmove(bp->data + o, src, m)`
abbrev pub put_bytes : Block → ℕ → List ℕ → ℕ → Block
put_bytes x o src m j = if leb o j && ltb j (o + m) then get_or src (j - o) 0 else x j

unfoldable pub write_loop : ℕ → Superblock → Disk → Inode → ℕ → List ℕ → ℕ → Option (Disk × Inode)
write_loop zero sb d ip off src left = if left == 0 then some (d, ip) else none
write_loop (suc k) sb d ip off src left = elim (left == 0) [
  | true ↦ some (d, ip)
  | false ↦
      let m = part left off in
      bmap sb d ip (off / bsize) >>= λ r.
      write_loop k sb (put_block r.0 r.2 (put_bytes (r.0 r.2) (off % bsize) src m)) r.1 (off + m)
        (drop m src) (left - m)
]

-- What `writei` does to the blocks and the inode up to its `iupdate`, its calls of `log_write` left out
-- (Fs.Logged has them): the disk, the inode, and whether it returns `n` and not -1.
unfoldable pub write_contents :
    Superblock → Disk → Inode → List ℕ → ℕ → ℕ → Option (Disk × Inode × Bool)
write_contents sb d ip src off n =
    if (ltb ip.size off || ltb (add32 off n) off) || ltb (maxfile * bsize) (add32 off n)
    then some (d, ip, false)
    else (write_loop n sb d ip off src n >>= λ r. some (
      r.0,
      (if ltb 0 n && ltb ip.size (off + n) then record r.1 { size = off + n } else r.1),
      true,
    ))
