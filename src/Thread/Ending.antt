-- ===== src/Thread/Ending.antt =====
-- How threads and processes of proc.c end: thread_clear, clear_subthreads, kill_threads_except, exit
-- and thread_exit. `init` is the slot of `initproc`.
use hyu_ele3021_os.Base.{
  ℕ, zero, suc, ◌+◌, Bool, false, true, not, ◌||◌, none, some, if◌then◌else◌, ◌==◌,
}
use hyu_ele3021_os.Mlfq.{unused, zombie, proc_chan, is_zombie, is_slot, nproc}
use hyu_ele3021_os.Mlfq.Waiting.{chan_of}
use hyu_ele3021_os.Thread.{Proc, PTable, proc_at, put_proc, wakeup1, sleep}

abbrev pub cleared : Proc → Proc
cleared p = record p {
  kstack = 0;
  pid = 0;
  tid = 0;
  main = none;
  parent = none;
  killed = false;
  state = unused;
}

unfoldable pub thread_clear : PTable → ℕ → PTable
thread_clear t i = put_proc t i (cleared (proc_at t i))

-- One turn of `clear_subthreads`' inner loop, at slot `i`: the flag says that it counts a thread.
unfoldable pub clear_slot : ℕ → PTable → ℕ → PTable × Bool
clear_slot cur t i =
    let p = proc_at t i in
    if not (p.pid == (proc_at t cur).pid) || i == cur
    then (t, false)
    else (if is_zombie p.state
        then (thread_clear t i, false)
        else (wakeup1 (proc_chan i) (put_proc t i (record p { killed = true })), true))

-- The inner loop from slot `i` on, `n` slots, with what `havethreads` is.
unfoldable pub clear_pass : ℕ → ℕ → ℕ → PTable → ℕ → PTable × ℕ
clear_pass zero i cur t havethreads = (t, havethreads)
clear_pass (suc n) i cur t havethreads =
    let (t', live) = clear_slot cur t i in
    clear_pass n (i + 1) cur t' (if live then havethreads + 1 else havethreads)

-- One turn of `clear_subthreads`' outer loop: `false` sleeps, and a wakeup starts it again.
unfoldable pub clear_subthreads : PTable → ℕ → PTable × Bool
clear_subthreads t cur =
    let (t', havethreads) = clear_pass nproc 0 cur t 0 in
    if (proc_at t cur).tid == 0
    then (if havethreads == 0 then (t', true) else (sleep t' cur (proc_chan cur), false))
    else (t, true)

-- "Pass abandoned children to init": the slots from `i` on, `n` of them.
unfoldable pub reparent : ℕ → ℕ → ℕ → ℕ → PTable → PTable
reparent zero i cur init t = t
reparent (suc n) i cur init t =
    let p = proc_at t i in
    let moved = put_proc t i (record p { parent = some init }) in
    let woken = if is_zombie p.state then wakeup1 (proc_chan init) moved else moved in
    reparent n (i + 1) cur init (if is_slot p.parent cur then woken else t)

-- `kill_threads_except(pid, cp)` over `n` slots from `i` on, when nothing else runs where it gives up
-- the lock to drop a directory.
unfoldable pub kill_threads : ℕ → ℕ → ℕ → ℕ → ℕ → PTable → PTable
kill_threads zero i init pid cp t = t
kill_threads (suc n) i init pid cp t =
    let t' =
      if not ((proc_at t i).pid == pid) || i == cp
      then t
      else thread_clear (reparent nproc 0 i init t) i in
    kill_threads n (i + 1) init pid cp t'

abbrev pub kill_threads_except : ℕ → PTable → ℕ → ℕ → PTable
kill_threads_except init t pid cp = kill_threads nproc 0 init pid cp t

-- `exit` of slot `cur` after `clear_subthreads` and the closing of its files.
unfoldable pub exit : ℕ → PTable → ℕ → PTable
exit init t cur =
    let t1 : PTable = elim (proc_at t cur).main [
      | none ↦ wakeup1 (chan_of (proc_at t cur).parent) t
      | some m ↦ wakeup1 (proc_chan m) (put_proc t m (record (proc_at t m) { killed = true }))
    ] in
    let t2 = reparent nproc 0 cur init t1 in
    put_proc t2 cur (record (proc_at t2 cur) { state = zombie })

-- `thread_exit(retval)` of slot `cur`.
unfoldable pub thread_exit : PTable → ℕ → ℕ → PTable
thread_exit t cur retval =
    let t1 = put_proc t cur (record (proc_at t cur) { retval = retval }) in
    let t2 = wakeup1 (chan_of (proc_at t1 cur).main) t1 in
    put_proc t2 cur (record (proc_at t2 cur) { state = zombie })
