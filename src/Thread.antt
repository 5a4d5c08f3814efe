-- ===== src/Thread.antt =====
-- xv6-public/proc.c: the process table of the build with threads, and the life of its slots. A thread
-- is a slot whose `main` is the slot of its process's main thread. Of `struct proc` the fields that
-- these functions read or write are kept, less the open files, the directory, the name and the saved
-- registers; `pgdir` and `kstack` are addresses, 0 for none.
pub mod Life
pub mod Ending
pub mod Waiting
pub mod Tids
pub mod Parts
pub mod Reach
pub mod Join
pub mod Clear
pub mod RoundRobin
mod Tests
use hyu_ele3021_os.Base.{
  ℕ, zero, suc, ◌+◌, Bool, false, true, ◌&&◌, Option, none, some, List, [], ◌∷◌, if◌then◌else◌,
  get_or, set, replicate, ◌==◌, drop,
}
use hyu_ele3021_os.Mlfq.{
  ProcState, unused, sleeping, runnable, running, Chan, no_chan, is_sleeping, is_runnable,
  same_chan, nproc,
}

pub record Proc : Type 0 where
  pub sz : ℕ
  pub pgdir : ℕ
  pub kstack : ℕ
  pub state : ProcState
  pub pid : ℕ
  pub parent : Option ℕ
  pub chan : Chan
  pub killed : Bool
  pub tid : ℕ
  pub main : Option ℕ
  pub retval : ℕ
  pub sbase : ℕ

-- `ptable`, with `nextpid` and `nexttid` as bit patterns.
pub record PTable : Type 0 where
  pub proc : List Proc
  pub nextpid : ℕ
  pub nexttid : ℕ

abbrev pub zero_proc : Proc
zero_proc = record {
  sz = 0;
  pgdir = 0;
  kstack = 0;
  state = unused;
  pid = 0;
  parent = none;
  chan = no_chan;
  killed = false;
  tid = 0;
  main = none;
  retval = 0;
  sbase = 0;
}

abbrev pub proc_at : PTable → ℕ → Proc
proc_at t i = get_or t.proc i zero_proc

abbrev pub put_proc : PTable → ℕ → Proc → PTable
put_proc t i p = record t { proc = set t.proc i p }

-- The table as static memory starts out.
abbrev pub boot : PTable
boot = record { proc = replicate nproc zero_proc; nextpid = 1; nexttid = 1 }

-- The first slot from `i` on whose process passes a test.
abbrev pub find_from : (Proc → Bool) → List Proc → ℕ → Option ℕ
find_from test [] i = none
find_from test (p ∷ ps) i = if test p then some i else find_from test ps (i + 1)

abbrev pub wake : Chan → Proc → Proc
wake ch p = if is_sleeping p.state && same_chan p.chan ch then record p { state = runnable } else p

-- The loop of `wakeup1` over the slots that are left.
unfoldable pub wake_all : Chan → List Proc → List Proc
wake_all ch [] = []
wake_all ch (p ∷ ps) = wake ch p ∷ wake_all ch ps

unfoldable pub wakeup1 : Chan → PTable → PTable
wakeup1 ch t = record t { proc = wake_all ch t.proc }

-- `kill(pid)`: the table, and whether a slot has that pid.
unfoldable pub kill : PTable → ℕ → PTable × Bool
kill t pid = elim (find_from (λ p. p.pid == pid) t.proc 0) [
  | none ↦ (t, false)
  | some i ↦
      let p = proc_at t i in
      (
        put_proc t i
            (record p { killed = true; state = if is_sleeping p.state then runnable else p.state }),
        true,
      )
]

-- `yield` of slot `cur` up to the switch in `sched`
unfoldable pub yield : PTable → ℕ → PTable
yield t cur = put_proc t cur (record (proc_at t cur) { state = runnable })

-- `sleep(chan, lk)` of slot `cur` up to the switch in `sched`, and what it does once switched back to
unfoldable pub sleep : PTable → ℕ → Chan → PTable
sleep t cur ch = put_proc t cur (record (proc_at t cur) { chan = ch; state = sleeping })

unfoldable pub awake : PTable → ℕ → PTable
awake t cur = put_proc t cur (record (proc_at t cur) { chan = no_chan })

-- The slot that the loop of `scheduler` at slot `i` switches to in this round; `none` is its end.
unfoldable pub next_runnable : PTable → ℕ → Option ℕ
next_runnable t i = find_from (λ p. is_runnable p.state) (drop i t.proc) i

-- What `scheduler` does to the table before `swtch`.
unfoldable pub dispatch : PTable → ℕ → PTable
dispatch t i = put_proc t i (record (proc_at t i) { state = running })
