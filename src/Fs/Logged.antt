-- ===== src/Fs/Logged.antt =====
-- `writei` of xv6-public/fs.c as the file-system call that makes it sees it: each block that it changes
-- goes through `log_write` of log.c, which panics when the log is full or no call is open.
use hyu_ele3021_os.Base.{
  ℕ, zero, suc, ◌+◌, ◌-◌, ◌*◌, ◌/◌, ◌%◌, ◌≤◌, ◌≡◌, refl, ◌∙◌, ap, true, false, ◌&&◌, ◌||◌, Option,
  none, some, List, [], ◌∷◌, ◌++◌, arith, ◌==◌, ltb, leb, if◌then◌else◌, Bool, Bool-cases,
  Option-cases, inl, inr, length, length-append, drop,
}
use hyu_ele3021_os.Base.Words.{add32, at_least}
use hyu_ele3021_os.CString.{◌>>=◌}
use hyu_ele3021_os.Log.{Log, logsize, log_refuses, log_block, log_write}
use hyu_ele3021_os.Log.Reserve.{log_block-n}
use hyu_ele3021_os.Fs.{bsize, Disk, Superblock, bblock, put_block}
use hyu_ele3021_os.Fs.Alloc.{balloc}
use hyu_ele3021_os.Fs.Inode.{
  ndirect, maxfile, Inode, word, addr, addr_or_new, bmap, part, put_bytes, write_contents,
}
use hyu_ele3021_os.Fs.WriteLoop.{need, part-bounds}

-- The blocks that `balloc` logs: that of the map, and the new one.
unfoldable pub balloc_logs : Superblock → Disk → List ℕ
balloc_logs sb d = elim (balloc sb d) [ none ↦ [] | some r ↦ bblock sb r.1 ∷ r.1 ∷ [] ]

-- Those that `bmap` logs, up to a panic.
unfoldable pub addr_logs : Superblock → Disk → Inode → ℕ → List ℕ
addr_logs sb d ip i = if addr ip i == 0 then balloc_logs sb d else []

unfoldable pub entry_logs : Superblock → Disk → ℕ → ℕ → List ℕ
entry_logs sb d b i = if word (d b) i == 0 then balloc_logs sb d ++ b ∷ [] else []

unfoldable pub bmap_logs : Superblock → Disk → Inode → ℕ → List ℕ
bmap_logs sb d ip bn =
    if ltb bn ndirect
    then addr_logs sb d ip bn
    else (addr_logs sb d ip ndirect ++ elim (addr_or_new sb d ip ndirect) [
      | none ↦ []
      | some r ↦ entry_logs sb r.0 r.2 (bn - ndirect)
    ])

-- Those that the loop of `writei` logs, with `k` rounds left.
unfoldable pub loop_logs : ℕ → Superblock → Disk → Inode → ℕ → List ℕ → ℕ → List ℕ
loop_logs zero sb d ip off src left = []
loop_logs (suc k) sb d ip off src left = elim (left == 0) [
  | true ↦ []
  | false ↦
      let m = part left off in
      bmap_logs sb d ip (off / bsize) ++ elim (bmap sb d ip (off / bsize)) [
        | none ↦ []
        | some r ↦
            r.2
            ∷ loop_logs k sb (put_block r.0 r.2 (put_bytes (r.0 r.2) (off % bsize) src m)) r.1
                (off + m) (drop m src) (left - m)
      ]
]

-- Those that `writei` logs; `iblock` is the inode's own block, which `iupdate` logs.
unfoldable pub writei_logs : Superblock → Disk → Inode → ℕ → List ℕ → ℕ → ℕ → List ℕ
writei_logs sb d ip iblock src off n =
    if (ltb ip.size off || ltb (add32 off n) off) || ltb (maxfile * bsize) (add32 off n)
    then []
    else loop_logs n sb d ip off src n
      ++ (if ltb 0 n && ltb ip.size (off + n) then iblock ∷ [] else [])

-- `log_write` of each of some blocks.
unfoldable pub log_all : Log → List ℕ → Option Log
log_all lg [] = some lg
log_all lg (b ∷ bs) = log_write lg b >>= λ lg'. log_all lg' bs

-- `writei` with its calls of `log_write`; `none` is a panic of it, of `balloc` or of `bmap`. What
-- `iupdate` writes to the inode's block is left out.
unfoldable pub writei :
    Log → Superblock → Disk → Inode → ℕ → List ℕ → ℕ → ℕ → Option (Log × Disk × Inode × Bool)
writei lg sb d ip iblock src off n = log_all lg (writei_logs sb d ip iblock src off n) >>= λ lg'.
    write_contents sb d ip src off n >>= λ r. some (lg', r.0, r.1, r.2)

balloc_logs-few : (sb : Superblock) (d : Disk) → length (balloc_logs sb d) ≤ 2
unfolding balloc_logs
balloc_logs-few sb d = elim (Option-cases (balloc sb d)) [
  | inl e ↦ rw (e, balloc_logs) (omega arith)
  | inr (r, e) ↦ rw (e, balloc_logs) (omega arith)
]

addr_logs-few : (sb : Superblock) (d : Disk) (ip : Inode) (i : ℕ) → length (addr_logs sb d ip i) ≤ 2
unfolding addr_logs
addr_logs-few sb d ip i = elim (Bool-cases (addr ip i == 0)) [
  | inl new ↦ rw (new, addr_logs) (balloc_logs-few sb d)
  | inr old ↦ rw (old, addr_logs) (omega arith)
]

entry_logs-few : (sb : Superblock) (d : Disk) (b i : ℕ) → length (entry_logs sb d b i) ≤ 3
unfolding entry_logs
entry_logs-few sb d b i = elim (Bool-cases (word (d b) i == 0)) [
  | inl new ↦
      rw (new, entry_logs)
        (omega (arith, length-append (balloc_logs sb d) (b ∷ []), balloc_logs-few sb d))
  | inr old ↦ rw (old, entry_logs) (omega arith)
]

bmap_logs-few :
    (sb : Superblock) (d : Disk) (ip : Inode) (bn : ℕ) → length (bmap_logs sb d ip bn) ≤ 5
unfolding bmap_logs
bmap_logs-few sb d ip bn = elim (Bool-cases (ltb bn ndirect)) [
  | inl direct ↦ rw (direct, bmap_logs) (omega (arith, addr_logs-few sb d ip bn))
  | inr high ↦ elim (Option-cases (addr_or_new sb d ip ndirect)) [
    | inl e ↦
        rw (high, e, bmap_logs)
          (omega
            (arith, length-append (addr_logs sb d ip ndirect) [], addr_logs-few sb d ip ndirect))
    | inr (r, e) ↦
        rw (high, e, bmap_logs)
          (omega (
            arith,
            length-append (addr_logs sb d ip ndirect) (entry_logs sb r.0 r.2 (bn - ndirect)),
            addr_logs-few sb d ip ndirect,
            entry_logs-few sb r.0 r.2 (bn - ndirect),
          ))
  ]
]

-- At most 6 calls of `log_write` for each block that the bytes touch.
loop_logs-few :
    (k : ℕ) (sb : Superblock) (d : Disk) (ip : Inode) (off : ℕ) (src : List ℕ) (left : ℕ)
    → length (loop_logs k sb d ip off src left) ≤ 3 * need off left
unfolding loop_logs
loop_logs-few zero sb d ip off src left = omega arith
loop_logs-few (suc k) sb d ip off src left = elim (Bool-cases (left == 0)) [
  | inl done ↦ rw (done, loop_logs) (omega arith)
  | inr more ↦
      let m = part left off in
      let less = (part-bounds left off (ground (arith, more))).3 in
      let logs = bmap_logs sb d ip (off / bsize) in
      let few = bmap_logs-few sb d ip (off / bsize) in
      elim (Option-cases (bmap sb d ip (off / bsize))) [
        | inl e ↦
            let all : loop_logs (suc k) sb d ip off src left ≡ logs ++ [] =
              rw (more, loop_logs, e) refl in
            omega (arith, ap length all, length-append logs [], few, less)
        | inr (r, e) ↦
            let d' = put_block r.0 r.2 (put_bytes (r.0 r.2) (off % bsize) src m) in
            let rest = loop_logs k sb d' r.1 (off + m) (drop m src) (left - m) in
            let all : loop_logs (suc k) sb d ip off src left ≡ logs ++ r.2 ∷ rest =
              rw (more, loop_logs, e) refl in
            omega (
              arith,
              ap length all,
              length-append logs (r.2 ∷ rest),
              few,
              less,
              loop_logs-few k sb d' r.1 (off + m) (drop m src) (left - m),
            )
      ]
]

pub writei_logs-few :
    (sb : Superblock) (d : Disk) (ip : Inode) (iblock : ℕ) (src : List ℕ) (off n : ℕ)
    → length (writei_logs sb d ip iblock src off n) ≤ 3 * need off n + 1
unfolding writei_logs
writei_logs-few sb d ip iblock src off n =
    elim (Bool-cases
      ((ltb ip.size off || ltb (add32 off n) off) || ltb (maxfile * bsize) (add32 off n))) [
        | inl bad ↦ rw (bad, writei_logs) (omega arith)
        | inr ok ↦ elim (Bool-cases (ltb 0 n && ltb ip.size (off + n))) [
          | inl grows ↦
              rw (ok, grows, writei_logs)
                (omega (
                  arith,
                  length-append (loop_logs n sb d ip off src n) (iblock ∷ []),
                  loop_logs-few n sb d ip off src n,
                ))
          | inr stays ↦
              rw (ok, stays, writei_logs)
                (omega (
                  arith,
                  length-append (loop_logs n sb d ip off src n) [],
                  loop_logs-few n sb d ip off src n,
                ))
        ]
      ]

log_block-size : (lg : Log) (b : ℕ) → (log_block lg b).size ≡ lg.size
unfolding log_block
log_block-size lg b = refl

log_write-some :
    (lg : Log) (b : ℕ)
    → at_least 1 lg.outstanding ≡ true
    → lg.n + 1 ≤ logsize
    → lg.n + 2 ≤ lg.size
    → log_write lg b ≡ some (log_block lg b)
unfolding log_write log_refuses
log_write-some lg b open_call room room' =
    let full : leb logsize lg.n ≡ false = ground (arith, room) in
    let long : leb (lg.size - 1) lg.n ≡ false = ground (arith, room') in
    rw (full, long, open_call, log_write, log_refuses) refl

-- In an open call, a log with room for every block takes them all.
pub log_all-some :
    (lg : Log) (bs : List ℕ)
    → at_least 1 lg.outstanding ≡ true
    → lg.n + length bs ≤ logsize
    → lg.n + length bs + 1 ≤ lg.size
    → (lg' : Log) × (log_all lg bs ≡ some lg') × (lg'.n ≤ lg.n + length bs)
unfolding log_all
log_all-some lg [] open_call room room' = (lg, refl, omega arith)
log_all-some lg (b ∷ bs) open_call room room' =
    let (grows, same, busy) = log_block-n lg b in
    let (lg', run, few) =
      log_all-some (log_block lg b) bs (ap (at_least 1) same ∙ open_call)
        (omega (arith, room, grows)) (omega (arith, room', grows, log_block-size lg b)) in
    (
      lg',
      rw (log_write-some lg b open_call (omega (arith, room)) (omega (arith, room')), log_all) run,
      omega (arith, few, grows),
    )
