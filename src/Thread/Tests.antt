-- ===== src/Thread/Tests.antt =====
-- Runs of the process table of proc.c at concrete inputs.
use hyu_ele3021_os.Base.{
  ℕ, ◌<◌, ◌≡◌, ◌≢◌, refl, false, none, some, [], ◌∷◌, arith, replicate, subst,
}
use hyu_ele3021_os.Mlfq.{nproc, no_chan, runnable}
use hyu_ele3021_os.Thread.{Proc, PTable, zero_proc, proc_at, boot, kill, wakeup1, wake_all}
use hyu_ele3021_os.Thread.Life.{
  userinit, allocproc, take_slot, give_stack, number_thread, finish_thread, start_thread, main_of,
  thread_create, fork, fork_into,
}
use hyu_ele3021_os.Thread.Ending.{clear_subthreads, clear_pass, clear_slot}
use hyu_ele3021_os.Thread.Waiting.{scan, wait, thread_join, joined, reaped}
use hyu_ele3021_os.Thread.Ending.{thread_exit, thread_clear}
use hyu_ele3021_os.Thread.Reach.{
  Reach, booted, later, starts_init, takes_slot, gets_stack, numbers, finishes, exits_thread, kills,
  Inv, Reach-Inv_ids,
}
use hyu_ele3021_os.Thread.Join.{OwnId, thread_exit-join, thread_join-zombie}
use hyu_ele3021_os.Thread.Clear.{Cleared, clear_subthreads-alone, clear_subthreads-sleeps}
use hyu_ele3021_os.Thread.RoundRobin.{Picked, picks, Picked-picks}

-- The first process in slot 0, with page table 8192, and the same with a thread in slot 1.
abbrev init_proc : Proc
init_proc = record {
  sz = 4096;
  pgdir = 8192;
  kstack = 4096;
  state = runnable;
  pid = 1;
  parent = none;
  chan = no_chan;
  killed = false;
  tid = 0;
  main = none;
  retval = 0;
  sbase = 0;
}

abbrev one_process : PTable
one_process = record { proc = init_proc ∷ replicate 63 zero_proc; nextpid = 2; nexttid = 1 }

abbrev thread_proc : Proc
thread_proc = record {
  sz = 12288;
  pgdir = 8192;
  kstack = 20480;
  state = runnable;
  pid = 1;
  parent = some 0;
  chan = no_chan;
  killed = false;
  tid = 1;
  main = some 0;
  retval = 0;
  sbase = 4096;
}

abbrev with_thread : PTable
with_thread = record {
  proc = record init_proc { sz = 12288 } ∷ thread_proc ∷ replicate 62 zero_proc;
  nextpid = 2;
  nexttid = 2;
}

userinit_runs : userinit boot 4096 8192 ≡ some (one_process, 0)
unfolding userinit allocproc give_stack take_slot
userinit_runs = refl

thread_create_runs : thread_create one_process 0 20480 12288 ≡ (with_thread, some 1)
unfolding thread_create start_thread finish_thread number_thread main_of allocproc give_stack
    take_slot
thread_create_runs = refl

-- Slot 1 is taken and gets its stack, then thread_create goes on in two parts.
abbrev taken : PTable
taken = (take_slot one_process).0

abbrev stacked : PTable
stacked = (give_stack taken 1 20480).0

abbrev numbered : PTable
numbered = number_thread stacked 0 1

finished : (finish_thread numbered 0 1 8192 4096 12288).0 ≡ with_thread
unfolding finish_thread number_thread give_stack take_slot
finished = refl

next_id : stacked.nexttid ≡ 1
unfolding give_stack take_slot
next_id = refl

with_thread-Reach : Reach with_thread
with_thread-Reach =
    let first : Reach one_process = later booted (starts_init 4096 8192 0 userinit_runs) in
    let second : Reach stacked = later (later first takes_slot) (gets_stack 1 20480) in
    let third : Reach numbered = later second (numbers 0 1 (omega (arith, next_id))) in
    subst Reach finished (later third (finishes 0 1 8192 4096 12288))

Reach-Inv_ids_example : Inv with_thread
Reach-Inv_ids_example = Reach-Inv_ids with_thread-Reach

with_thread-OwnId : OwnId with_thread 1
with_thread-OwnId k e =
    (Reach-Inv_ids with_thread-Reach).unique k 1 (λ z. absurd (omega (arith, e, z))) e

-- The thread has exited.
abbrev dead_thread : PTable
dead_thread = thread_exit with_thread 1 77

dead_thread-OwnId : OwnId dead_thread 1
unfolding thread_exit wakeup1 wake_all
dead_thread-OwnId k e =
    (Reach-Inv_ids (later with_thread-Reach (exits_thread 1 77))).unique k 1
      (λ z. absurd (omega (arith, e, z))) e

-- Between the exit and the join, process 1 is killed.
abbrev then_killed : PTable
then_killed = (kill dead_thread 1).0

then_killed-OwnId : OwnId then_killed 1
unfolding kill thread_exit wakeup1 wake_all
then_killed-OwnId k e =
    (Reach-Inv_ids (later (later with_thread-Reach (exits_thread 1 77)) (kills 1))).unique k 1
      (λ z. absurd (omega (arith, e, z))) e

thread_exit-join_example : (thread_join then_killed 0 1).1 ≡ joined 77
unfolding kill thread_exit wakeup1 wake_all
thread_exit-join_example =
    thread_exit-join with_thread then_killed 0 1 77 (omega arith) refl then_killed-OwnId

thread_join-zombie_example :
    thread_join dead_thread 0 1
    ≡ (thread_clear dead_thread 1, joined (proc_at dead_thread 1).retval)
unfolding thread_exit wakeup1 wake_all
thread_join-zombie_example = thread_join-zombie dead_thread 0 1 1 dead_thread-OwnId refl refl

-- Two creators that have slots 1 and 2 and both read `nexttid` before either writes it give their
-- threads the same id: a join of the thread in slot 1 takes the value of the one in slot 2.
abbrev twins : PTable
twins = record {
  proc = init_proc ∷ thread_proc ∷ record thread_proc { kstack = 28672 } ∷ replicate 61 zero_proc;
  nextpid = 2;
  nexttid = 2;
}

twins_joined : (thread_join (thread_exit twins 2 5) 0 1).1 ≡ joined 5
unfolding thread_exit wakeup1 wake_all thread_join scan
twins_joined = refl

-- The main thread of slot 0 finds nothing to wait for once the thread is cleared.
clear_subthreads-alone_example :
    Cleared 0 1 dead_thread (clear_subthreads dead_thread 0).0
    × ((j : ℕ) → j < nproc → j ≢ 0 → (proc_at (clear_subthreads dead_thread 0).0 j).pid ≢ 1)
unfolding thread_exit wakeup1 wake_all clear_subthreads clear_pass clear_slot thread_clear
clear_subthreads-alone_example =
    clear_subthreads-alone dead_thread (clear_subthreads dead_thread 0).0 0 refl (λ e. omega arith)
      refl

-- A `thread_create` that allocuvm fails leaves slot 1 unused with the pid 1 of the process: the main
-- thread then sleeps for ever in its exit.
abbrev failed_create : PTable
failed_create = (thread_create one_process 0 20480 0).0

clear_subthreads-sleeps_example : (clear_subthreads failed_create 0).1 ≡ false
unfolding thread_create start_thread finish_thread number_thread main_of allocproc give_stack
    take_slot
clear_subthreads-sleeps_example =
    clear_subthreads-sleeps failed_create 0 1 refl (λ e. omega arith) (omega arith)
      (λ e. omega arith) refl refl

-- `wait` of the main thread takes the thread for a child, and frees the page table 8192 of both.
wait_frees_shared : (wait dead_thread 0).1 ≡ reaped 1 20480 (proc_at dead_thread 0).pgdir
unfolding thread_exit wakeup1 wake_all wait scan
wait_frees_shared = refl

-- A thread's fork: the new process is the child of the thread, not of the main thread.
fork_of_thread : (proc_at (fork with_thread 1 28672 32768).0 2).parent ≡ some 1
unfolding fork fork_into allocproc give_stack take_slot
fork_of_thread = refl

-- Slots 0 and 1 are runnable at both picks.
Picked-picks_example : Picked 1 (picks (with_thread ∷ with_thread ∷ []) 0)
Picked-picks_example =
    Picked-picks (with_thread ∷ with_thread ∷ []) 0 1 (omega arith) (omega arith) (refl, (refl, tt))
