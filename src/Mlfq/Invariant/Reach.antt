-- ===== src/Mlfq/Invariant/Reach.antt =====
-- The process table under any interleaving of the operations of proc_MLFQ.c.
use hyu_ele3021_os.Base.{
  ℕ, ◌<◌, ◌≡◌, refl, sym, ap, ◌∙◌, Bool, false, some, arith, replicate, length-replicate,
  get_or-replicate, zero, suc,
}
use hyu_ele3021_os.Mlfq.{
  ProcState, embryo, running, Proc, PTable, zero_proc, nproc, Chan, proc_at, pinit, is_runnable,
  allocproc, set_kstack, fork_parent, make_runnable, setpriority,
}
use hyu_ele3021_os.Mlfq.Queue.{wakeup1, kill, yield, sleep, awake, degrade, boost, rst}
use hyu_ele3021_os.Mlfq.Waiting.{exit, wait}
use hyu_ele3021_os.Mlfq.Scheduler.{search_from, chosen, dispatch}
use hyu_ele3021_os.Mlfq.Count.{count}
use hyu_ele3021_os.Mlfq.Invariant.{Inv}
use hyu_ele3021_os.Mlfq.Invariant.Loops.{wakeup1-Inv, boost-Inv}
use hyu_ele3021_os.Mlfq.Invariant.Steps.{
  allocproc-Inv, setpriority-Inv, kill-Inv, set_kstack-Inv, fork_parent-Inv, make_runnable-Inv,
  yield-Inv, sleep-Inv, awake-Inv, dispatch-Inv, rst-Inv, degrade-Inv,
}
use hyu_ele3021_os.Mlfq.Invariant.Exit.{exit-Inv, wait-Inv}
use hyu_ele3021_os.Mlfq.Search.Best.{search-Best}

-- Slot `i` is in the table and its process has state `s`.
abbrev pub At : PTable → ℕ → ProcState → Type 0
At t i s = (i < nproc) × ((proc_at t i).state ≡ s)

-- One step of any CPU. What a process does for itself wants it to run, what is done to a slot that
-- `allocproc` gave wants it to be an embryo, and a CPU switches to what its search chose.
pub data Step (k : ℕ) (t : PTable) : PTable → Type 0 where
  allocates : Step k t (allocproc t).0
  gets_kstack : (i page : ℕ) → At t i embryo → Step k t (set_kstack t i page).0
  forks : (cur i : ℕ) (copied : Bool) → At t i embryo → Step k t (fork_parent t cur i copied).0
  starts : (i : ℕ) → At t i embryo → Step k t (make_runnable t i)
  switches :
      (fuel level slot : ℕ) {j : ℕ}
      → search_from fuel k t level slot ≡ some (chosen j)
      → Step k t (dispatch t j)
  yields : (cur : ℕ) → At t cur running → Step k t (yield t cur)
  sleeps : (cur : ℕ) (ch : Chan) → At t cur running → Step k t (sleep t cur ch)
  wakes : (cur : ℕ) → At t cur running → Step k t (awake t cur)
  wakes_up : (ch : Chan) → Step k t (wakeup1 ch t)
  kills : (pid : ℕ) → Step k t (kill t pid).0
  exits : (init cur : ℕ) → At t cur running → Step k t (exit init t cur)
  waits : (cur : ℕ) → At t cur running → Step k t (wait t cur).0
  ticks : (cur : ℕ) {t' : PTable} → cur < nproc → degrade k t (some cur) ≡ some t' → Step k t t'
  boosts : Step k t (boost t)
  resets : (cur : ℕ) → cur < nproc → Step k t (rst t cur)
  sets_priority : (cur pid priority : ℕ) → Step k t (setpriority t cur pid priority).0

pub data Reach (k : ℕ) : PTable → Type 0 where
  booted : Reach k (pinit k)
  later : {t t' : PTable} → Reach k t → Step k t t' → Reach k t'

not-runnable :
    (t : PTable) (i : ℕ) (s : ProcState)
    → is_runnable s ≡ false
    → (proc_at t i).state ≡ s
    → is_runnable (proc_at t i).state ≡ false
not-runnable t i s h e = rw e h

Step-Inv : {k : ℕ} {t t' : PTable} → Step k t t' → Inv k t → Inv k t'
Step-Inv allocates v = allocproc-Inv v
Step-Inv {t} (gets_kstack i page at) v =
    set_kstack-Inv v i at.0 page (not-runnable t i embryo refl at.1)
Step-Inv {t} (forks cur i copied at) v =
    fork_parent-Inv v i at.0 cur copied (not-runnable t i embryo refl at.1)
Step-Inv {t} (starts i at) v = make_runnable-Inv v i at.0 (not-runnable t i embryo refl at.1)
Step-Inv (switches fuel level slot {j} e) v =
    let b = search-Best v fuel level slot e in dispatch-Inv v j b.in_table b.can_run
Step-Inv {t} (yields cur at) v = yield-Inv v cur at.0 (not-runnable t cur running refl at.1)
Step-Inv {t} (sleeps cur ch at) v = sleep-Inv v cur at.0 ch (not-runnable t cur running refl at.1)
Step-Inv (wakes cur at) v = awake-Inv v cur at.0
Step-Inv (wakes_up ch) v = wakeup1-Inv ch v
Step-Inv (kills pid) v = kill-Inv v pid
Step-Inv (exits init cur at) v = exit-Inv init cur v at.0 at.1
Step-Inv (waits cur at) v = wait-Inv cur v at.0 at.1
Step-Inv (ticks cur h e) v = degrade-Inv v cur h e
Step-Inv boosts v = boost-Inv v
Step-Inv (resets cur h) v = rst-Inv v cur h
Step-Inv (sets_priority cur pid priority) v = setpriority-Inv v cur pid priority

count-zeroes : (l n : ℕ) → count l (replicate n zero_proc) ≡ 0
unfolding count
count-zeroes l zero = refl
count-zeroes l (suc n) = omega (arith, count-zeroes l n)

pinit-Inv : (k : ℕ) → 0 < k → Inv k (pinit k)
unfolding pinit
pinit-Inv k h = record {
  size = length-replicate nproc zero_proc;
  queues = length-replicate k 0;
  some_level = h;
  levels = λ i. omega (arith, ap (λ (p : Proc). p.level) (get_or-replicate nproc i zero_proc));
  counted = λ l lt. get_or-replicate k l 0 ∙ sym (count-zeroes l nproc);
}

-- In every reachable table each `numproc[l]` is the number of runnable processes of level `l`, and
-- every process is in one of the `k` levels.
pub Reach-Inv : {k : ℕ} {t : PTable} → 0 < k → Reach k t → Inv k t
Reach-Inv {k} h booted = pinit-Inv k h
Reach-Inv h (later r s) = Step-Inv s (Reach-Inv h r)
