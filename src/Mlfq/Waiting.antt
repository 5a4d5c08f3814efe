-- ===== src/Mlfq/Waiting.antt =====
-- `exit` and `wait` of proc_MLFQ.c, from their `acquire(&ptable.lock)` to the switch or the return.
use hyu_ele3021_os.Base.{
  ℕ, zero, suc, ◌+◌, Bool, false, ◌&&◌, ◌||◌, not, Option, none, some, List, [], ◌∷◌, if◌then◌else◌,
}
use hyu_ele3021_os.Mlfq.{
  unused, zombie, Chan, proc_chan, no_chan, Proc, PTable, nproc, is_zombie, is_slot, proc_at,
  put_proc,
}
use hyu_ele3021_os.Mlfq.Queue.{wakeup1, sleep}

-- The channel that a pointer to a process is.
abbrev pub chan_of : Option ℕ → Chan
chan_of none = no_chan
chan_of (some i) = proc_chan i

-- "Pass abandoned children to init": the slots from `i` on, `n` of them.
unfoldable pub reparent : ℕ → ℕ → ℕ → ℕ → PTable → PTable
reparent zero i cur init t = t
reparent (suc n) i cur init t =
    let p = proc_at t i in
    let moved = put_proc t i (record p { parent = some init }) in
    let woken = if is_zombie p.state then wakeup1 (proc_chan init) moved else moved in
    reparent n (i + 1) cur init (if is_slot p.parent cur then woken else t)

-- `exit` of slot `cur` after its files are closed; `init` is the slot of `initproc`.
unfoldable pub exit : ℕ → PTable → ℕ → PTable
exit init t cur =
    let t1 = wakeup1 (chan_of (proc_at t cur).parent) t in
    let t2 = reparent nproc 0 cur init t1 in
    put_proc t2 cur (record (proc_at t2 cur) { state = zombie })

-- One pass of `wait` over the slots that are left, from slot `i` on: a zombie child if one is
-- found, and else whether there are children.
pub data Scan : Type 0 where
  found : ℕ → Scan
  havekids : Bool → Scan

unfoldable pub scan : ℕ → List Proc → ℕ → Bool → Scan
scan cur [] i kids = havekids kids
scan cur (p ∷ ps) i kids =
    let child = is_slot p.parent cur in
    if child && is_zombie p.state then found i else scan cur ps (i + 1) (kids || child)

-- How a pass ends: with a child's pid and the kernel stack to free, with -1, or in `sleep`.
pub data WaitEnd : Type 0 where
  reaped : ℕ → ℕ → WaitEnd
  no_children : WaitEnd
  asleep : WaitEnd

unfoldable pub wait : PTable → ℕ → PTable × WaitEnd
wait t cur = elim (scan cur t.proc 0 false) [
  | found i ↦
      let p = proc_at t i in
      let p' = record p { kstack = 0; pid = 0; parent = none; killed = false; state = unused } in
      (put_proc t i p', reaped p.pid p.kstack)
  | havekids kids ↦
      if not kids || (proc_at t cur).killed
      then (t, no_children)
      else (sleep t cur (proc_chan cur), asleep)
]
