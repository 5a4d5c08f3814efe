-- ===== src/Mlfq/Scheduler.antt =====
-- `scheduler` of proc_MLFQ.c: the search for a process while the lock is held, and the switch to it.
use hyu_ele3021_os.Base.{
  ℕ, zero, suc, ◌+◌, Bool, false, ◌&&◌, ◌||◌, Option, none, some, List, ltb, ◌==◌, if◌then◌else◌,
  get_or, set,
}
use hyu_ele3021_os.Base.Words.{positive, at_least}
use hyu_ele3021_os.Mlfq.{running, Proc, PTable, nproc, is_runnable, proc_at, leave, find_from}

-- `for(int i = 0; i < level; i++) if(ptable.numproc[i] > 0) …`
abbrev pub busy_below : List ℕ → ℕ → Bool
busy_below np zero = false
busy_below np (suc l) = busy_below np l || positive (get_or np l 0)

-- The test on `p`: runnable, and in the level that is searched.
abbrev pub eligible : ℕ → Proc → Bool
eligible level p = is_runnable p.state && p.level == level

abbrev pub beats : ℕ → ℕ → Proc → Bool
beats level priority q = eligible level q && ltb priority q.priority

-- `p1`: the first process that beats slot `i`, looked for only if the level holds several.
abbrev pub rival : PTable → ℕ → ℕ → Option ℕ
rival t level i =
    if at_least 2 (get_or t.numproc level 0)
    then find_from (beats level (proc_at t i).priority) t.proc 0
    else none

-- What a search ends with: a process to switch to, or the end of the round and `release`.
pub data Found : Type 0 where
  chosen : ℕ → Found
  idle : Found

-- The loops at slot `i` of level `level`: `goto schbegin` is level 0, slot 0, and `goto schsearch`
-- slot 0. `none` is the end of the fuel, a step of which is one turn of a loop. After a switch the
-- search goes on at the next slot, with the table as it is then.
unfoldable pub search_from : ℕ → ℕ → PTable → ℕ → ℕ → Option Found
search_from zero k t level i = none
search_from (suc fuel) k t level i =
    let restart = search_from fuel k t 0 0 in
    let next_slot = search_from fuel k t level (i + 1) in
    let again = search_from fuel k t level 0 in
    let next_level = search_from fuel k t (level + 1) 0 in
    if ltb i nproc
    then (if busy_below t.numproc level
        then restart
        else (if eligible level (proc_at t i)
            then elim (rival t level i) [
              | none ↦ some (chosen i)
              | some j ↦ if ltb j i then again else next_slot
            ]
            else next_slot))
    else (if positive (get_or t.numproc level 0)
        then again
        else (if ltb (level + 1) k then next_level else some idle))

-- What is done to the table before `swtch`.
unfoldable pub dispatch : PTable → ℕ → PTable
dispatch t i =
    let p = proc_at t i in
    record t {
      proc = set t.proc i (record p { state = running });
      heads = set t.heads p.level (some i);
      numproc = leave t.numproc p.level;
    }
