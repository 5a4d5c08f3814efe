-- ===== src/Mlfq/Tests.antt =====
-- Runs of the MLFQ process table at concrete inputs, with MLFQ_K = 3.
use hyu_ele3021_os.Base.{
  ℕ, zero, suc, ◌<◌, ◌≤◌, ◌≡◌, refl, true, none, some, List, [], ◌∷◌, arith, replicate, get_or,
  get_or-replicate, subst,
}
use hyu_ele3021_os.Mlfq.{
  Proc, PTable, zero_proc, runnable, nproc, proc_at, pinit, allocproc, make_runnable, setpriority,
  bad_priority, is_runnable,
}
use hyu_ele3021_os.Mlfq.Queue.{degrade, rst}
use hyu_ele3021_os.Mlfq.Scheduler.{search_from, Found, chosen, eligible}
use hyu_ele3021_os.Mlfq.Count.{count}
use hyu_ele3021_os.Mlfq.Invariant.{Inv}
use hyu_ele3021_os.Mlfq.Invariant.Loops.{Levels-get}
use hyu_ele3021_os.Mlfq.Invariant.Reach.{booted, later, allocates, starts, Reach-Inv}
use hyu_ele3021_os.Mlfq.Search.Best.{Best, search-Best}
use hyu_ele3021_os.Mlfq.Search.Progress.{NoDip, search-total}
use hyu_ele3021_os.Mlfq.Search.Livelock.{Dip, search-livelock}
use hyu_ele3021_os.Mlfq.Degrade.{
  slice, Shape, run_tick, run_ticks, run_tick-slice, run_ticks-quantum, degrade-rst,
}

abbrev ready : ℕ → ℕ → ℕ → Proc
ready pid level priority = record zero_proc {
  state = runnable;
  pid = pid;
  level = level;
  priority = priority;
}

-- Three processes in slots 0 to 2, and the counts that go with them.
abbrev table : Proc → Proc → Proc → List ℕ → PTable
table p q r np = record {
  proc = p ∷ q ∷ r ∷ replicate 61 zero_proc;
  heads = none ∷ none ∷ none ∷ [];
  numproc = np;
  nextpid = 4;
}

-- Priorities 5, 3 and 7 in level 0.
abbrev dipped : PTable
dipped = table (ready 1 0 5) (ready 2 0 3) (ready 3 0 7) (3 ∷ 0 ∷ 0 ∷ [])

-- Slot 1 alone in level 1, slots 0 and 2 in level 2.
abbrev layered : PTable
layered = table (ready 1 2 0) (ready 2 1 0) (ready 3 2 4) (0 ∷ 1 ∷ 2 ∷ [])

dipped-Inv : Inv 3 dipped
unfolding count
dipped-Inv = record {
  size = refl;
  queues = refl;
  some_level = omega arith;
  levels = Levels-get 3 dipped.proc (omega arith) (omega arith);
  counted = at;
}
  where
    at : (l : ℕ) → l < 3 → get_or dipped.numproc l 0 ≡ count l dipped.proc
    at zero h = refl
    at (suc zero) h = refl
    at (suc (suc zero)) h = refl
    at (suc (suc (suc l))) h = absurd (omega arith)

layered-Inv : Inv 3 layered
unfolding count
layered-Inv = record {
  size = refl;
  queues = refl;
  some_level = omega arith;
  levels = Levels-get 3 layered.proc (omega arith) (omega arith);
  counted = at;
}
  where
    at : (l : ℕ) → l < 3 → get_or layered.numproc l 0 ≡ count l layered.proc
    at zero h = refl
    at (suc zero) h = refl
    at (suc (suc zero)) h = refl
    at (suc (suc (suc l))) h = absurd (omega arith)

search_runs : search_from 200 3 layered 0 0 ≡ some (chosen 1)
unfolding search_from
search_runs = refl

dipped_runs : search_from 200 3 dipped 0 0 ≡ none
unfolding search_from
dipped_runs = refl

search-Best_example : Best layered 1
unfolding search_from
search-Best_example = search-Best layered-Inv 200 0 0 refl

-- The slots from 3 on are unused.
layered-NoDip : NoDip layered
layered-NoDip l a b zero h h' _ _ _ _ _ = absurd (omega arith)
layered-NoDip l a zero (suc c) h h' _ _ _ _ _ = absurd (omega arith)
layered-NoDip l a (suc b) (suc zero) h h' _ _ _ _ _ = absurd (omega arith)
layered-NoDip l (suc a) (suc b) (suc (suc zero)) h h' _ _ _ _ _ = absurd (omega arith)
layered-NoDip l zero (suc b) (suc (suc zero)) h h' _ ea eb ec _ =
    let mid : b ≡ 0 = omega arith in
    let eb' = subst (λ n. eligible l (proc_at layered (suc n)) ≡ true) mid eb in
    absurd (ground arith)
layered-NoDip l a b (suc (suc (suc c))) h h' _ ea eb ec _ =
    let free = subst (λ p. eligible l p ≡ true) (get_or-replicate 61 c zero_proc) ec in
    absurd (cc free)

search-total_example :
    ((f : Found) × (search_from 195 3 layered 0 0 ≡ some f))
    × ((i : ℕ)
        → i < nproc
        → is_runnable (proc_at layered i).state ≡ true
        → (j : ℕ) × (search_from 195 3 layered 0 0 ≡ some (chosen j)) × Best layered j)
search-total_example = search-total layered-Inv layered-NoDip

dipped-Dip : Dip 3 dipped 0 0 1 2
dipped-Dip = record {
  in_levels = omega arith;
  quiet = refl;
  first = omega arith;
  second = omega arith;
  in_table = omega arith;
  runs_a = refl;
  runs_b = refl;
  runs_c = refl;
  falls = omega arith;
  tops = top;
}
  where
    top : (i : ℕ) → i ≤ 1 → eligible 0 (proc_at dipped i) ≡ true → (proc_at dipped i).priority < 7
    top zero h e = omega arith
    top (suc zero) h e = omega arith
    top (suc (suc i)) h e = absurd (omega arith)

search-livelock_example : search_from 100000 3 dipped 0 0 ≡ none
search-livelock_example = search-livelock dipped-Inv dipped-Dip 100000

forked : PTable
unfolding pinit allocproc make_runnable
forked = make_runnable (allocproc (pinit 3)).0 0

Reach-Inv_example : Inv 3 forked
unfolding forked
Reach-Inv_example =
    Reach-Inv (omega arith) (later (later booted allocates) (starts 0 (omega arith, refl)))

layered-Shape : Shape 3 layered
layered-Shape = record { size = refl; head_count = refl }

-- Slot 1 runs in level 1, whose quantum is 6.
run_tick-slice_example :
    (t' : PTable) × (run_tick 3 layered 1 ≡ some t') × (slice t' 1 ≡ (1, 1)) × Shape 3 t'
run_tick-slice_example = run_tick-slice 1 layered-Shape (omega arith) (omega arith)

run_ticks-quantum_example :
    ((t' : PTable) × (run_ticks 5 3 layered 1 ≡ some t') × (slice t' 1 ≡ (1, 5)))
    × ((t' : PTable) × (run_ticks 6 3 layered 1 ≡ some t') × (slice t' 1 ≡ (2, 0)))
run_ticks-quantum_example =
    run_ticks-quantum 5 5 1 0 layered-Shape (omega arith) (omega arith) (omega arith) refl refl
      (omega arith)

degrade-rst_example : degrade 3 (rst layered 1) (some 1) ≡ none
degrade-rst_example = degrade-rst 3 layered 1 (omega arith) refl

setpriority_refuses : (setpriority dipped 0 2 11).1 ≡ bad_priority
unfolding setpriority
setpriority_refuses = refl
