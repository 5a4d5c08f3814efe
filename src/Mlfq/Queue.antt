-- ===== src/Mlfq/Queue.antt =====
-- The operations of proc_MLFQ.c that move processes between levels and between states:
-- wakeup1, kill, yield, sleep, degrade, boost, rst.
use hyu_ele3021_os.Base.{
  ℕ, ◌+◌, ◌-◌, ◌*◌, ◌^◌, Bool, true, false, ◌&&◌, Option, none, some, List, [], ◌∷◌, ◌==◌,
  if◌then◌else◌, get_or, set,
}
use hyu_ele3021_os.Base.Words.{inc32, at_least}
use hyu_ele3021_os.Mlfq.{
  sleeping, runnable, Chan, no_chan, Proc, PTable, is_unused, is_sleeping, is_runnable, same_chan,
  proc_at, put_proc, enter, leave, find_from, is_slot,
}

-- The loop of `wakeup1` over the slots that are left.
unfoldable pub wake : Chan → List Proc → List ℕ → List Proc × List ℕ
wake ch [] np = ([], np)
wake ch (p ∷ ps) np =
    let hit = is_sleeping p.state && same_chan p.chan ch in
    let (ps', np') = wake ch ps (if hit then enter np p.level else np) in
    ((if hit then record p { state = runnable } else p) ∷ ps', np')

unfoldable pub wakeup1 : Chan → PTable → PTable
wakeup1 ch t = let (ps, np) = wake ch t.proc t.numproc in record t { proc = ps; numproc = np }

-- `kill(pid)`: the table, and whether a slot has that pid.
unfoldable pub kill : PTable → ℕ → PTable × Bool
kill t pid = elim (find_from (λ p. p.pid == pid) t.proc 0) [
  | none ↦ (t, false)
  | some i ↦
      let p = proc_at t i in
      if is_sleeping p.state
      then (
        record t {
          proc = set t.proc i (record p { killed = true; state = runnable });
          numproc = enter t.numproc p.level;
        },
        true,
      )
      else (put_proc t i (record p { killed = true }), true)
]

-- `yield` of slot `cur` up to the switch in `sched`
unfoldable pub yield : PTable → ℕ → PTable
yield t cur =
    let p = proc_at t cur in
    record t {
      proc = set t.proc cur (record p { state = runnable });
      numproc = enter t.numproc p.level;
    }

-- `sleep(chan, lk)` of slot `cur` up to the switch in `sched`, and what it does once switched back to
unfoldable pub sleep : PTable → ℕ → Chan → PTable
sleep t cur ch = put_proc t cur (record (proc_at t cur) { chan = ch; state = sleeping })

unfoldable pub awake : PTable → ℕ → PTable
awake t cur = put_proc t cur (record (proc_at t cur) { chan = no_chan })

-- `QT(LEVEL)`, the quantum of a level
abbrev pub quantum : ℕ → ℕ
quantum level = 4 * level + 2

-- The part of `degrade` for a process `cur` whose quantum is used up.
unfoldable pub expire : ℕ → PTable → ℕ → PTable
expire k t cur =
    let p = proc_at t cur in
    let hs = set t.heads p.level none in
    if p.level == k - 1
    then record t { proc = set t.proc cur (record p { extime = 2 ^ 32 - 1 }); heads = hs }
    else record t {
      proc = set t.proc cur (record p { extime = 0; level = p.level + 1 });
      heads = hs;
      numproc =
          if is_runnable p.state then enter (leave t.numproc p.level) (p.level + 1) else t.numproc;
    }

-- `degrade` with `myproc()`; `none` is its panic.
unfoldable pub degrade : ℕ → PTable → Option ℕ → Option PTable
degrade k t none = some t
degrade k t (some cur) =
    let p = proc_at t cur in
    let ran = inc32 p.extime in
    if is_slot (get_or t.heads p.level none) cur
    then some (
        if at_least (quantum p.level) ran
        then expire k t cur
        else put_proc t cur (record p { extime = ran }))
    else none

-- The loop of `boost` over the slots that are left.
unfoldable pub boost_loop : List Proc → List ℕ → List Proc × List ℕ
boost_loop [] np = ([], np)
boost_loop (p ∷ ps) np =
    let (ps', np') =
      boost_loop ps (if is_runnable p.state then enter (leave np p.level) 0 else np) in
    ((if is_unused p.state then p else record p { level = 0; extime = 0 }) ∷ ps', np')

unfoldable pub boost : PTable → PTable
boost t = let (ps, np) = boost_loop t.proc t.numproc in record t { proc = ps; numproc = np }

unfoldable pub rst : PTable → ℕ → PTable
rst t cur =
    let p = proc_at t cur in
    record t {
      proc = set t.proc cur (record p { level = 0; extime = 0 });
      numproc = if is_runnable p.state then enter (leave t.numproc p.level) 0 else t.numproc;
    }
