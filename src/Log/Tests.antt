-- ===== src/Log/Tests.antt =====
-- Runs of the log at concrete inputs: a log of 31 blocks from block 2, and two logged blocks.
use hyu_ele3021_os.Base.{
  ℕ, zero, suc, ◌<◌, ◌≡◌, refl, Bool, true, false, none, some, List, [], ◌∷◌, arith, ◌==◌,
  if◌then◌else◌, ◌⊎◌, inl, inr, replicate, take,
}
use mathlib.Core.Path.{fun_ext}
use native.Mathlib.Decide.{ℕ_discrete}
use hyu_ele3021_os.Log.{
  Log, Blocks, begin_op, log_refuses, log_slot, log_block, log_write, commit, block_at, end_op,
}
use hyu_ele3021_os.Log.Disk.{replay}
use hyu_ele3021_os.Log.Commit.{Home, Logged, Quiet}
use hyu_ele3021_os.Log.Crash.{Ready}
use hyu_ele3021_os.Log.Recovery.{recovery, crashes, commit-atomic, commit-done}
use hyu_ele3021_os.Log.Reserve.{
  Calls, Pick, begins, IsReserved, Reach, here, later, idle_log, Step-IsReserved, Reach-no_panic,
}

abbrev two_blocks : Log
two_blocks = record {
  start = 2;
  size = 31;
  outstanding = 0;
  committing = true;
  n = 2;
  block = 40 ∷ 50 ∷ replicate 28 0;
}

abbrev zeroes : Blocks
zeroes b w = 0

-- Blocks 40 and 50 hold ones in the cache.
abbrev changed_blocks : Blocks
changed_blocks b w = if b == 40 then 1 else (if b == 50 then 1 else 0)

two_blocks-Ready : Ready two_blocks zeroes changed_blocks
two_blocks-Ready = record {
  fits = record { room = omega arith; homes = outside };
  pending = omega arith;
  bounded = omega arith;
  empty = refl;
  changed = listed;
}
  where
    outside : (j : ℕ) → j < 2 → Home two_blocks (block_at two_blocks j)
    outside zero h = omega arith
    outside (suc zero) h = omega arith
    outside (suc (suc j)) h = absurd (omega arith)

    listed : (b : ℕ) → Home two_blocks b → Logged two_blocks 0 b ⊎ (zeroes b ≡ changed_blocks b)
    listed b h = elim (ℕ_discrete b 40) [
      | yes e ↦ inl (0, omega arith, omega arith, omega arith)
      | no e ↦ elim (ℕ_discrete b 50) [
        | yes e' ↦ inl (1, omega arith, omega arith, omega arith)
        | no e' ↦ inr (fun_ext λ w. ground arith)
      ]
    ]

-- After 3 of the 6 writes the header is on the disk: the commit has happened. Recovery is then
-- interrupted twice.
commit-atomic_example :
    let d =
      crashes two_blocks
        (replay zeroes (take 3 (commit two_blocks changed_blocks).2))
        (1 ∷ 2 ∷ []) in
    Quiet two_blocks zeroes (replay d (recovery two_blocks d))
    ⊎ Quiet two_blocks changed_blocks (replay d (recovery two_blocks d))
commit-atomic_example = commit-atomic two_blocks-Ready 3 (1 ∷ 2 ∷ [])

commit-done_example :
    Quiet two_blocks changed_blocks (replay zeroes (commit two_blocks changed_blocks).2)
    × ((commit two_blocks changed_blocks).0.n ≡ 0)
commit-done_example = commit-done two_blocks-Ready

abbrev one_call : Calls
one_call = record {
  log = record (idle_log 2 31 (replicate 30 0)).log { outstanding = 1 };
  budgets = 10 ∷ [];
}

one_call-Reach : Reach (idle_log 2 31 (replicate 30 0)) one_call
unfolding begin_op
one_call-Reach = later here (begins refl)

Reach-no_panic_example :
    ((left : ℕ) (rest : List ℕ) → Pick (10 ∷ []) (suc left) rest → log_refuses one_call.log ≡ false)
    × ((left : ℕ) (rest : List ℕ)
        → Pick (10 ∷ []) left rest
        → (lg : Log) × (last : Bool) × (end_op one_call.log ≡ some (lg, last)))
Reach-no_panic_example = Reach-no_panic (omega arith) one_call-Reach

Step-IsReserved_example : IsReserved one_call
unfolding begin_op
Step-IsReserved_example =
    Step-IsReserved {s = idle_log 2 31 (replicate 30 0)} (begins refl) (record {
      running = refl;
      alone = λ c. refl;
      small = tt;
      fits = omega arith;
      few = omega arith;
    })

-- The log of mkfs.c has LOGSIZE blocks with its header: the 30th block that three calls may log
-- between them makes `log_write` panic.
abbrev full_log : Log
full_log = record {
  start = 2;
  size = 30;
  outstanding = 3;
  committing = false;
  n = 29;
  block = replicate 30 0;
}

log_write_panics : log_write full_log 99 ≡ none
unfolding log_write log_refuses
log_write_panics = refl

-- So does a block that is in the log already: the tests come before the absorption.
log_write_absorbs_late : log_write (record full_log { block = replicate 30 99 }) 99 ≡ none
unfolding log_write log_refuses
log_write_absorbs_late = refl

-- In a log with room a block is added, and written again it is absorbed.
abbrev roomy_log : Log
roomy_log = record full_log { n = 1; block = 99 ∷ replicate 29 0 }

log_write_adds :
    log_write roomy_log 7 ≡ some (record roomy_log { n = 2; block = 99 ∷ 7 ∷ replicate 28 0 })
unfolding log_write log_refuses log_block log_slot
log_write_adds = refl

log_write_absorbs : log_write roomy_log 99 ≡ some roomy_log
unfolding log_write log_refuses log_block log_slot
log_write_absorbs = refl
