-- ===== src/Log.antt =====
-- xv6-public/log.c: the redo log that makes the block writes of file-system calls atomic.
-- A block is its 128 words by index, and `bread` is the cache's latest contents of a block: bio.c
-- gives the cached copy, or else the disk's. Each `bwrite` is one atomic write to the disk, so a run
-- of the log is the list of its disk writes, and a crash leaves the disk after some first few.
-- `log.lock` makes `begin_op`, the update of `log_write` and the two ends of `end_op` one step each;
-- the tests of `log_write` come before it takes the lock.
pub mod Disk
pub mod Commit
pub mod Crash
pub mod Recovery
pub mod Reserve
mod Tests
use hyu_ele3021_os.Base.Words.{dec32, at_least}
use hyu_ele3021_os.Base.{
  not, ℕ, zero, suc, ◌+◌, ◌-◌, ◌*◌, ◌≤◌, Bool, true, false, ◌&&◌, ◌||◌, Option, none, some, List,
  [], ◌∷◌, ◌++◌, ltb, leb, ◌==◌, if◌then◌else◌, get_or, set, replicate,
}

abbrev pub maxopblocks : ℕ
maxopblocks = 10

abbrev pub logsize : ℕ
logsize = 30

abbrev pub Block : Type 0
Block = ℕ → ℕ

-- The blocks of the disk, or what the cache holds for each.
abbrev pub Blocks : Type 0
Blocks = ℕ → Block

abbrev pub Write : Type 0
Write = ℕ × Block

abbrev pub apply : Blocks → Write → Blocks
apply d (b, x) a = if b == a then x else d a

-- `outstanding` is an `int` as its bit pattern; `begin_op`'s sum is that of small numbers.
-- `struct log` with its `struct logheader`: `n` and `block`.
pub record Log : Type 0 where
  pub start : ℕ
  pub size : ℕ
  pub outstanding : ℕ
  pub committing : Bool
  pub n : ℕ
  pub block : List ℕ

abbrev pub block_at : Log → ℕ → ℕ
block_at lg i = get_or lg.block i 0

-- The loops below go over `tail`, with the rounds left, and give the cache and the disk writes.
unfoldable pub install_trans : ℕ → ℕ → Log → Blocks → Blocks × List Write
install_trans zero tail lg cache = (cache, [])
install_trans (suc k) tail lg cache =
    let w : Write = (block_at lg tail, cache (lg.start + tail + 1)) in
    let (cache', ws) = install_trans k (tail + 1) lg (apply cache w) in (cache', w ∷ ws)

unfoldable pub write_log : ℕ → ℕ → Log → Blocks → Blocks × List Write
write_log zero tail lg cache = (cache, [])
write_log (suc k) tail lg cache =
    let w : Write = (lg.start + tail + 1, cache (block_at lg tail)) in
    let (cache', ws) = write_log k (tail + 1) lg (apply cache w) in (cache', w ∷ ws)

-- The header block over its old contents: word 0 is `n`, word `i + 1` is `block[i]` for `i < n`.
abbrev pub header : Log → Block → Block
header lg old w = if w == 0 then lg.n else (if leb w lg.n then block_at lg (w - 1) else old w)

unfoldable pub write_head : Log → Blocks → Blocks × List Write
write_head lg cache =
    let w : Write = (lg.start, header lg (cache lg.start)) in (apply cache w, w ∷ [])

-- The loop of `read_head`, for the words from `i` on.
unfoldable pub read_blocks : ℕ → ℕ → Block → List ℕ → List ℕ
read_blocks zero i hb bs = bs
read_blocks (suc k) i hb bs = read_blocks k (i + 1) hb (set bs i (hb (i + 1)))

unfoldable pub read_head : Log → Blocks → Log
read_head lg cache =
    let hb = cache lg.start in record lg { n = hb 0; block = read_blocks (hb 0) 0 hb lg.block }

unfoldable pub recover_from_log : Log → Blocks → Log × Blocks × List Write
recover_from_log lg cache =
    let lg1 = read_head lg cache in
    let (c1, w1) = install_trans lg1.n 0 lg1 cache in
    let lg2 = record lg1 { n = 0 } in let (c2, w2) = write_head lg2 c1 in (lg2, c2, w1 ++ w2)

unfoldable pub commit : Log → Blocks → Log × Blocks × List Write
commit lg cache =
    if ltb 0 lg.n
    then (let (c1, w1) = write_log lg.n 0 lg cache in
        let (c2, w2) = write_head lg c1 in
        let (c3, w3) = install_trans lg.n 0 lg c2 in
        let lg' = record lg { n = 0 } in
        let (c4, w4) = write_head lg' c3 in (lg', c4, w1 ++ (w2 ++ (w3 ++ w4))))
    else (lg, cache, [])

-- One turn of `begin_op`'s loop: `none` sleeps on the log.
unfoldable pub begin_op : Log → Option Log
begin_op lg =
    if lg.committing
    then none
    else (if ltb logsize (lg.n + (lg.outstanding + 1) * maxopblocks)
        then none
        else some (record lg { outstanding = lg.outstanding + 1 }))

-- `end_op` up to the release: `none` is its panic; the flag says to commit, and is a wakeup if not.
unfoldable pub end_op : Log → Option (Log × Bool)
end_op lg =
    let left = dec32 lg.outstanding in
    if lg.committing
    then none
    else (if left == 0
        then some (record lg { outstanding = left; committing = true }, true)
        else some (record lg { outstanding = left }, false))

-- The rest of `end_op` after the commit.
unfoldable pub end_commit : Log → Log
end_commit lg = record lg { committing = false }

-- The place of a block among the first `k` entries from `i` on, or the end.
unfoldable pub log_slot : ℕ → ℕ → List ℕ → ℕ → ℕ
log_slot zero i bs b = i
log_slot (suc k) i bs b = if get_or bs i 0 == b then i else log_slot k (i + 1) bs b

-- The two tests of `log_write`, which it makes without the lock and which panic.
unfoldable pub log_refuses : Log → Bool
log_refuses lg = leb logsize lg.n || leb (lg.size - 1) lg.n || not (at_least 1 lg.outstanding)

-- What `log_write` of block `b` does under `log.lock`. B_DIRTY, which keeps the buffer in the cache,
-- has no counterpart: the cache of this model forgets nothing.
unfoldable pub log_block : Log → ℕ → Log
log_block lg b =
    let i = log_slot lg.n 0 lg.block b in
    record lg { block = set lg.block i b; n = if i == lg.n then lg.n + 1 else lg.n }

-- `log_write` of a buffer with block number `b`, with no other call between its tests and its update;
-- `none` is a panic.
unfoldable pub log_write : Log → ℕ → Option Log
log_write lg b = if log_refuses lg then none else some (log_block lg b)

-- `initlog`, with the superblock's start and size, on the `log` of static memory.
unfoldable pub initlog : ℕ → ℕ → Blocks → Log × Blocks × List Write
initlog start size cache =
    recover_from_log
      (record {
        start = start;
        size = size;
        outstanding = 0;
        committing = false;
        n = 0;
        block = replicate logsize 0;
      })
      cache
