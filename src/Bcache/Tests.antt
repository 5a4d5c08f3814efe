-- ===== src/Bcache/Tests.antt =====
-- Runs of the buffer cache at concrete inputs: block `n` of the disk has the words `n`, and process 4
-- changes block 7 in the cache.
use hyu_ele3021_os.Base.{
  ℕ, zero, suc, get_or, ◌-◌, ◌≡◌, ◌+◌, ◌^◌, ◌⊎◌, ◌<◌, refl, true, Option, none, some, List, [], ◌∷◌,
  arith, inl,
}
use hyu_ele3021_os.Bcache.{
  Bcache, Buf, Block, buf_at, put_buf, bget, lock_buf, read_in, bread, brelse, binit, iderw, walk,
  link_all, put_first, unlink, is_held, holds_block, is_unused, zero_buf,
}
use hyu_ele3021_os.Bcache.View.{IsBuf}
use hyu_ele3021_os.Bcache.Moves.{changed}
use hyu_ele3021_os.Bcache.Refine.{gets, locks, reads, changes, pins, releases, Reach, start, then_}
use hyu_ele3021_os.Bcache.Ring.{stacked, binit-Ring}
use hyu_ele3021_os.Bcache.Recycle.{get_from, bget-get_from}
use hyu_ele3021_os.Bcache.Latest.{bread-latest}

abbrev disk0 : ℕ → Block
disk0 n = λ w. n

abbrev state : Option Bcache → Bcache
state none = binit disk0
state (some s) = s

abbrev got : Option (Bcache × ℕ) → Bcache
got none = binit disk0
got (some (s, b)) = s

abbrev s1 : Bcache
s1 = got (bget (binit disk0) 1 7)

s1_is : bget (binit disk0) 1 7 ≡ some (s1, 1)
unfolding bget walk binit link_all put_first
s1_is = refl

abbrev s2 : Bcache
s2 = state (lock_buf s1 4 1)

abbrev s3 : Bcache
s3 = state (read_in 100 s2 4 1)

-- Process 4's contents for block 7.
abbrev mine : Block
mine w = 1000 + w

abbrev s4 : Bcache
s4 = put_buf s3 1 (record (buf_at s3 1) { block = mine })

abbrev s5 : Bcache
s5 = put_buf s4 1 (record (buf_at s4 1) { dirty = true })

abbrev s6 : Bcache
s6 = state (brelse s5 4 1)

abbrev v6 : ℕ → Block
v6 = changed disk0 7 mine

real : IsBuf 1
real = omega arith

locked_runs : lock_buf s1 4 1 ≡ some s2
unfolding lock_buf bget walk binit link_all put_first
locked_runs = refl

read_runs : read_in 100 s2 4 1 ≡ some s3
unfolding read_in iderw lock_buf bget walk binit link_all put_first
read_runs = refl

s6-Reach : Reach 100 disk0 s6 v6
unfolding brelse unlink read_in iderw lock_buf bget walk binit link_all put_first
s6-Reach =
    then_
      (then_
        (then_
          (then_
            (then_ (then_ start (gets 7 1 s1 s1_is (omega arith))) (locks 4 1 s2 real locked_runs))
            (reads 4 1 s3 real (refl, refl, omega arith) read_runs))
          (changes 4 1 mine real (refl, refl, omega arith) refl (omega arith)))
        (pins 4 1 real (refl, refl, omega arith) refl))
      (releases 4 1 s6 real (refl, refl, omega arith) (inl refl) refl)

abbrev Idle : Buf → Type 0
Idle v = (v.holder ≡ none) × (v.refcnt + 1 < 2 ^ 32)

abbrev AllIdle : List Buf → Type 0
AllIdle [] = Unit {0}
AllIdle (v ∷ vs) = Idle v × AllIdle vs

at-AllIdle : (vs : List Buf) (i : ℕ) → AllIdle vs → Idle (get_or vs i zero_buf)
at-AllIdle [] i h = (refl, omega arith)
at-AllIdle (v ∷ vs) zero h = h.0
at-AllIdle (v ∷ vs) (suc i) h = at-AllIdle vs i h.1

s6-AllIdle : AllIdle s6.buf
unfolding brelse unlink read_in iderw lock_buf bget walk binit link_all put_first
s6-AllIdle = ((refl, omega arith), ground arith)

-- Nobody holds a buffer, and the counts are small.
s6_idle :
    (j : ℕ)
    → (holds_block s6 1 7 j ≡ true) ⊎ (is_unused s6 j ≡ true)
    → ((buf_at s6 j).holder ≡ none) × ((buf_at s6 j).refcnt + 1 < 2 ^ 32)
s6_idle j h = at-AllIdle s6.buf (j - 1) s6-AllIdle

unused_2 : is_unused s6 2 ≡ true
unfolding brelse unlink read_in iderw lock_buf bget walk binit link_all put_first
unused_2 = refl

-- Process 5 reads what process 4 left in the cache; the disk has the old contents.
bread-latest_example :
    (t : Bcache) × (b : ℕ) × (bread 100 s6 5 7 ≡ some (t, b))
    × ((buf_at t b).block ≡ mine)
    × (is_held t 5 b ≡ true)
bread-latest_example =
    bread-latest 100 disk0 s6 v6 5 7 2 s6-Reach (omega arith) (omega arith) unused_2 s6_idle

bget-get_from_example : bget (binit disk0) 1 7 ≡ get_from (binit disk0) (stacked 30 1 []) 1 7
bget-get_from_example =
    bget-get_from (binit disk0) (stacked 30 1 []) 1 7 (binit-Ring disk0) (omega arith)
