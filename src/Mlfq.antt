-- ===== src/Mlfq.antt =====
-- xv6-public/proc_MLFQ.c: the process table of the multi-level feedback queue, and the operations on
-- it. Each holds `ptable.lock` from its first access to its last, so each is one step; a call that
-- gives up the lock in between (fork, wait, exit, sleep) is a step for each stretch.
-- Of `struct proc` the fields that these operations read or write are kept; memory, files and the
-- saved registers are not. `k` is MLFQ_K, 3 unless the build sets it.
pub mod Queue
pub mod Waiting
pub mod Scheduler
pub mod Count
pub mod Invariant
pub mod Search
pub mod Degrade
mod Tests
use hyu_ele3021_os.Base.{
  ℕ, zero, suc, ◌+◌, ◌-◌, ◌*◌, ◌^◌, Bool, true, false, not, ◌&&◌, ◌||◌, Option, none, some, List,
  [], ◌∷◌, ltb, leb, ◌==◌, if◌then◌else◌, get_or, set, replicate,
}
use hyu_ele3021_os.Base.Words.{inc32, dec32}

abbrev pub nproc : ℕ
nproc = 64

-- `enum procstate`
pub data ProcState : Type 0 where
  unused embryo sleeping runnable running zombie : ProcState

-- A `void *chan`: null, the address of a slot of the table, or any other address.
pub data Chan : Type 0 where
  no_chan : Chan
  proc_chan : ℕ → Chan
  other_chan : ℕ → Chan

-- `struct proc`; `parent` is the slot that it points to, `kstack` an address (0 for none), and
-- `extime` an `int` as its bit pattern.
pub record Proc : Type 0 where
  pub state : ProcState
  pub pid : ℕ
  pub parent : Option ℕ
  pub kstack : ℕ
  pub chan : Chan
  pub killed : Bool
  pub level : ℕ
  pub extime : ℕ
  pub priority : ℕ

-- `ptable`, with `nextpid`. `heads` holds slots, and `numproc` bit patterns of `int`.
pub record PTable : Type 0 where
  pub proc : List Proc
  pub heads : List (Option ℕ)
  pub numproc : List ℕ
  pub nextpid : ℕ

-- A slot as static memory starts out.
abbrev pub zero_proc : Proc
zero_proc = record {
  state = unused;
  pid = 0;
  parent = none;
  kstack = 0;
  chan = no_chan;
  killed = false;
  level = 0;
  extime = 0;
  priority = 0;
}

abbrev pub is_unused : ProcState → Bool
is_unused unused = true
is_unused _ = false

abbrev pub is_sleeping : ProcState → Bool
is_sleeping sleeping = true
is_sleeping _ = false

abbrev pub is_runnable : ProcState → Bool
is_runnable runnable = true
is_runnable _ = false

abbrev pub is_zombie : ProcState → Bool
is_zombie zombie = true
is_zombie _ = false

abbrev pub same_chan : Chan → Chan → Bool
same_chan no_chan no_chan = true
same_chan (proc_chan a) (proc_chan b) = a == b
same_chan (other_chan a) (other_chan b) = a == b
same_chan _ _ = false

abbrev pub is_slot : Option ℕ → ℕ → Bool
is_slot none i = false
is_slot (some j) i = j == i

abbrev pub proc_at : PTable → ℕ → Proc
proc_at t i = get_or t.proc i zero_proc

abbrev pub put_proc : PTable → ℕ → Proc → PTable
put_proc t i p = record t { proc = set t.proc i p }

-- `numproc[l]++` and `numproc[l]--`
abbrev pub enter : List ℕ → ℕ → List ℕ
enter np l = set np l (inc32 (get_or np l 0))

abbrev pub leave : List ℕ → ℕ → List ℕ
leave np l = set np l (dec32 (get_or np l 0))

-- `pinit`, on a table of zeroes
unfoldable pub pinit : ℕ → PTable
pinit k = record {
  proc = replicate nproc zero_proc;
  heads = replicate k none;
  numproc = replicate k 0;
  nextpid = 1;
}

-- The first slot from `i` on whose process passes a test.
abbrev pub find_from : (Proc → Bool) → List Proc → ℕ → Option ℕ
find_from test [] i = none
find_from test (p ∷ ps) i = if test p then some i else find_from test ps (i + 1)

-- `allocproc` up to the release of the lock: the table, and the slot if there is one.
unfoldable pub allocproc : PTable → PTable × Option ℕ
allocproc t = elim (find_from (λ p. is_unused p.state) t.proc 0) [
  | none ↦ (t, none)
  | some i ↦
      let p = record (proc_at t i) {
        state = embryo;
        pid = t.nextpid;
        level = 0;
        extime = 0;
        priority = 0;
      } in
      (record t { proc = set t.proc i p; nextpid = inc32 t.nextpid }, some i)
]

-- The rest of `allocproc`, with the page that `kalloc` gave: 0 gives the slot back.
unfoldable pub set_kstack : PTable → ℕ → ℕ → PTable × Bool
set_kstack t i page =
    if page == 0
    then (put_proc t i (record (proc_at t i) { kstack = 0; state = unused }), false)
    else (put_proc t i (record (proc_at t i) { kstack = page }), true)

-- `fork` of slot `cur` after `allocproc`: `copied` says whether `copyuvm` succeeded.
unfoldable pub fork_parent : PTable → ℕ → ℕ → Bool → PTable × Bool
fork_parent t cur i true = (put_proc t i (record (proc_at t i) { parent = some cur }), true)
fork_parent t cur i false =
    (put_proc t i (record (proc_at t i) { kstack = 0; state = unused }), false)

-- The last stretch of `fork` and of `userinit`: the slot becomes runnable.
unfoldable pub make_runnable : PTable → ℕ → PTable
make_runnable t i =
    let p = proc_at t i in
    record t {
      proc = set t.proc i (record p { state = runnable });
      numproc = enter t.numproc p.level;
    }

-- `setpriority(pid, priority)` of slot `cur`; the numbers are bit patterns, the results 0, -1, -2.
pub data SetResult : Type 0 where
  changed not_found bad_priority : SetResult

unfoldable pub setpriority : PTable → ℕ → ℕ → ℕ → PTable × SetResult
setpriority t cur pid priority =
    if ltb 10 priority
    then (t, bad_priority)
    else elim (find_from (λ p. not (is_unused p.state) && is_slot p.parent cur && p.pid == pid)
        t.proc 0) [
          | none ↦ (t, not_found)
          | some i ↦ (put_proc t i (record (proc_at t i) { priority = priority }), changed)
        ]

-- `getlev` of slot `cur`
pub getlev : PTable → ℕ → ℕ
getlev t cur = (proc_at t cur).level
