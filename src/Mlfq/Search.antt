-- ===== src/Mlfq/Search.antt =====
-- What the search of the MLFQ scheduler picks: facts about its tests, shared by the modules below.
pub mod Best
pub mod Progress
pub mod Livelock
use hyu_ele3021_os.Base.{
  ℕ, zero, suc, ◌+◌, ◌-◌, ◌^◌, ◌≤◌, ◌<◌, ◌≡◌, ◌≢◌, refl, ap, ◌∙◌, Bool, true, false, List, [], ◌∷◌,
  arith, if◌then◌else◌, ◌==◌, ◌&&◌, ◌||◌, length, get_or, Bool-cases, inl, inr, Option, none, some,
  Option-cases, ltb,
}
use hyu_ele3021_os.Base.Words.{positive, at_least}
use hyu_ele3021_os.Mlfq.{Proc, PTable, zero_proc, proc_at, nproc, is_runnable, find_from}
use hyu_ele3021_os.Mlfq.Scheduler.{busy_below, eligible, beats, rival}
use hyu_ele3021_os.Mlfq.Count.{weight, count, count-le-length, weight-le-count, weights-le-count}
use hyu_ele3021_os.Mlfq.Invariant.{Inv}

-- A search that finds nothing has tried every slot.
pub find_from-none :
    (test : Proc → Bool) (ps : List Proc) (n : ℕ)
    → find_from test ps n ≡ none
    → (i : ℕ) → i < length ps
    → test (get_or ps i zero_proc) ≡ false
find_from-none test [] n e i h = absurd (omega arith)
find_from-none test (p ∷ ps) n e zero h = ground arith
find_from-none test (p ∷ ps) n e (suc i) h =
    find_from-none test ps (n + 1) (ground arith) i (omega arith)

module _ {k : ℕ} {t : PTable} (v : Inv k t) where
  -- A level with a runnable process is seen by the tests on `numproc`.
  pub positive-runnable :
      (i : ℕ)
      → i < nproc
      → is_runnable (proc_at t i).state ≡ true
      → positive (get_or t.numproc (proc_at t i).level 0) ≡ true
  positive-runnable i h r =
      let l = (proc_at t i).level in
      ground (
        arith,
        v.counted l (v.levels i),
        weight-le-count l t.proc i (omega (arith, v.size)),
        count-le-length l t.proc,
        v.size,
      )

  -- A level that counts no process has none.
  pub none-runnable :
      (l i : ℕ)
      → positive (get_or t.numproc l 0) ≡ false
      → i < nproc
      → eligible l (proc_at t i) ≡ false
  none-runnable l i e h = elim (Bool-cases (eligible l (proc_at t i))) [
    | inl yes' ↦
        let same : (proc_at t i).level ≡ l = ground arith in
        let busy = positive-runnable i h (ground arith) in absurd (cc (same, busy, e))
    | inr no' ↦ no'
  ]

  -- With no busy level below, a runnable process is at the level or above it.
  pub level-le :
      (level : ℕ)
      → busy_below t.numproc level ≡ false
      → (i : ℕ) → i < nproc
      → is_runnable (proc_at t i).state ≡ true
      → level ≤ (proc_at t i).level
  level-le zero e i h r = omega arith
  level-le (suc l) e i h r =
      let below = level-le l (ground arith) i h r in
      let other : (proc_at t i).level ≢ l = λ same. ground (arith, positive-runnable i h r) in
      omega arith
