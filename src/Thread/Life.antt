-- ===== src/Thread/Life.antt =====
-- How slots of proc.c come to life: allocproc, userinit, growproc, fork and thread_create. What the
-- allocator and the page tables answer is an argument, 0 for a failure. `allocproc`, `fork` and
-- `thread_create` give up `ptable.lock` on their way: each is also given in the parts between which
-- other CPUs may run.
use hyu_ele3021_os.Base.{ℕ, ◌*◌, Bool, false, true, Option, none, some, if◌then◌else◌, ◌==◌}
use hyu_ele3021_os.Base.Words.{inc32, dec32, add32}
use hyu_ele3021_os.Mlfq.{embryo, runnable, unused, is_unused}
use hyu_ele3021_os.Thread.{PTable, proc_at, put_proc, find_from}

abbrev pub pgsize : ℕ
pgsize = 4096

-- `allocproc` up to the release of the lock: the table, and the slot if there is one.
unfoldable pub take_slot : PTable → PTable × Option ℕ
take_slot t = elim (find_from (λ p. is_unused p.state) t.proc 0) [
  | none ↦ (t, none)
  | some i ↦
      let p = record (proc_at t i) { state = embryo; pid = t.nextpid; tid = 0; main = none } in
      (record t { proc = (put_proc t i p).proc; nextpid = inc32 t.nextpid }, some i)
]

-- The rest of `allocproc` for slot `i`, with the kernel stack that `kalloc` gives: no lock is held.
unfoldable pub give_stack : PTable → ℕ → ℕ → PTable × Option ℕ
give_stack t i page =
    let p = proc_at t i in
    if page == 0
    then (put_proc t i (record p { kstack = 0; state = unused }), none)
    else (put_proc t i (record p { kstack = page }), some i)

-- `allocproc` with nothing between its two halves.
unfoldable pub allocproc : PTable → ℕ → PTable × Option ℕ
allocproc t page =
    let (t1, slot) = take_slot t in elim slot [ none ↦ (t1, none) | some i ↦ give_stack t1 i page ]

-- `userinit`; `none` is a panic, or a fault when `allocproc` fails.
unfoldable pub userinit : PTable → ℕ → ℕ → Option (PTable × ℕ)
userinit t page pgdir =
    let (t1, slot) = allocproc t page in
    elim slot [
      | none ↦ none
      | some i ↦
          let p = record (proc_at t1 i) { pgdir = pgdir; sz = pgsize; state = runnable } in
          if pgdir == 0 then none else some (put_proc t1 i p, i)
    ]

-- The slot whose size `growproc` changes; a thread with no main thread is a null dereference.
unfoldable pub grown_slot : PTable → ℕ → Option ℕ
grown_slot t cur = if (proc_at t cur).tid == 0 then some cur else (proc_at t cur).main

-- `growproc(n)`, where `n` is an `int` and `sz` what allocuvm or deallocuvm gives: the flag is a
-- success.
unfoldable pub growproc : PTable → ℕ → ℕ → ℕ → Option (PTable × Bool)
growproc t cur n sz = elim (grown_slot t cur) [
  | none ↦ none
  | some m ↦
      if n == 0
      then some (t, true)
      else (if sz == 0
          then some (t, false)
          else some (put_proc t m (record (proc_at t m) { sz = sz }), true))
]

-- `fork` of slot `cur` once it has slot `i`, with the page table of the copy: the child's pid. The lock
-- is taken only for the new state; the test on `tid` is on the new process.
unfoldable pub fork_into : PTable → ℕ → ℕ → ℕ → PTable × Option ℕ
fork_into t cur i copied =
    let np = proc_at t i in
    let curproc = proc_at t cur in
    if copied == 0 then (put_proc t i (record np { kstack = 0; state = unused }), none) else (
      put_proc t i (record np {
        pgdir = copied;
        sz = curproc.sz;
        parent = if np.tid == 0 then some cur else curproc.main;
        state = runnable;
      }),
      some np.pid,
    )

-- `fork` of slot `cur` with nothing between its parts.
unfoldable pub fork : PTable → ℕ → ℕ → ℕ → PTable × Option ℕ
fork t cur page copied =
    let (t1, slot) = allocproc t page in
    elim slot [ none ↦ (t1, none) | some i ↦ fork_into t1 cur i copied ]

-- The main thread of slot `cur`'s process.
unfoldable pub main_of : PTable → ℕ → ℕ
main_of t cur = elim (proc_at t cur).main [ none ↦ cur | some m ↦ m ]

-- `thread_create` for main thread `m` once it has slot `i`, up to its call of allocuvm: the counters,
-- the new slot's id and owner, and the main thread's size. No lock is held.
unfoldable pub number_thread : PTable → ℕ → ℕ → PTable
number_thread t m i =
    let main = proc_at t m in
    let np = record (proc_at t i) {
      tid = t.nexttid;
      main = some m;
      parent = some m;
      pid = main.pid;
    } in
    let t1 : PTable = record {
      proc = (put_proc t i np).proc;
      nextpid = dec32 t.nextpid;
      nexttid = inc32 t.nexttid;
    } in
    put_proc t1 m (record (proc_at t1 m) { sz = add32 main.sz (2 * pgsize) })

-- `thread_create` from allocuvm on, with what that gives, and with the page table and the size that the
-- main thread had before: the thread's id. A failure leaves the slot with the process's pid and the
-- main thread with its new size. The lock is taken only for the new state.
unfoldable pub finish_thread : PTable → ℕ → ℕ → ℕ → ℕ → ℕ → PTable × Option ℕ
finish_thread t m i pgdir sbase sz =
    let np = proc_at t i in
    if sz == 0 then (put_proc t i (record np { state = unused }), none) else (
      put_proc t i
          (record np { pgdir = pgdir; sz = (proc_at t m).sz; sbase = sbase; state = runnable }),
      some np.tid,
    )

-- The two parts of `thread_create`, with nothing between them.
unfoldable pub start_thread : PTable → ℕ → ℕ → ℕ → PTable × Option ℕ
start_thread t m i sz =
    finish_thread (number_thread t m i) m i (proc_at t m).pgdir (proc_at t m).sz sz

-- `thread_create` with nothing between its parts.
unfoldable pub thread_create : PTable → ℕ → ℕ → ℕ → PTable × Option ℕ
thread_create t cur page sz =
    let (t1, slot) = allocproc t page in
    elim slot [ none ↦ (t1, none) | some i ↦ start_thread t1 (main_of t cur) i sz ]
