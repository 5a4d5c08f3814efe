-- ===== src/Thread/Waiting.antt =====
-- `wait` and `thread_join` of proc.c, from their `acquire(&ptable.lock)` to the return or the sleep.
use hyu_ele3021_os.Base.{
  ℕ, ◌+◌, Bool, false, ◌&&◌, ◌||◌, not, none, List, [], ◌∷◌, if◌then◌else◌, ◌==◌,
}
use hyu_ele3021_os.Mlfq.{unused, proc_chan, is_zombie, is_slot}
use hyu_ele3021_os.Mlfq.Waiting.{Scan, found, havekids}
use hyu_ele3021_os.Thread.{Proc, PTable, proc_at, put_proc, sleep}
use hyu_ele3021_os.Thread.Ending.{thread_clear}

-- One pass over the slots that are left, from slot `i` on: a zombie among those that pass the test,
-- and else whether any passes.
unfoldable pub scan : (Proc → Bool) → List Proc → ℕ → Bool → Scan
scan test [] i seen = havekids seen
scan test (p ∷ ps) i seen =
    if test p && is_zombie p.state then found i else scan test ps (i + 1) (seen || test p)

-- How a pass of `wait` ends: with a child's pid, and the kernel stack and the page table that are
-- freed; with -1; or in `sleep`.
pub data WaitEnd : Type 0 where
  reaped : ℕ → ℕ → ℕ → WaitEnd
  no_children : WaitEnd
  asleep : WaitEnd

unfoldable pub wait : PTable → ℕ → PTable × WaitEnd
wait t cur = elim (scan (λ p. is_slot p.parent cur) t.proc 0 false) [
  | found i ↦
      let p = proc_at t i in
      let p' = record p { kstack = 0; pid = 0; parent = none; killed = false; state = unused } in
      (put_proc t i p', reaped p.pid p.kstack p.pgdir)
  | havekids kids ↦
      if not kids || (proc_at t cur).killed
      then (t, no_children)
      else (sleep t cur (proc_chan cur), asleep)
]

-- How a pass of `thread_join` ends: with the thread's return value, with -1, or in `sleep`.
pub data JoinEnd : Type 0 where
  joined : ℕ → JoinEnd
  no_thread : JoinEnd
  join_asleep : JoinEnd

unfoldable pub thread_join : PTable → ℕ → ℕ → PTable × JoinEnd
thread_join t cur thread = elim (scan (λ p. p.tid == thread) t.proc 0 false) [
  | found i ↦ (thread_clear t i, joined (proc_at t i).retval)
  | havekids seen ↦
      if not seen || (proc_at t cur).killed
      then (t, no_thread)
      else (sleep t cur (proc_chan cur), join_asleep)
]
