-- ===== src/MultiLevel.antt =====
-- `scheduler` of xv6-public/proc_multiLevel.c: round robin over the processes with even pids, and
-- first come, first served over those with odd ones. Its `struct proc` is that of Thread, of which
-- only the state and the pid are read; pids are below 2 ^ 31, so that their order is that of `int`.
pub mod Order
mod Tests
use hyu_ele3021_os.Base.{
  ℕ, zero, suc, ◌+◌, ◌%◌, Bool, true, false, not, ◌&&◌, ◌||◌, Option, none, some, List, [], ◌∷◌,
  if◌then◌else◌, ◌==◌, ltb, drop,
}
use hyu_ele3021_os.Mlfq.{is_runnable}
use hyu_ele3021_os.Thread.{Proc, find_from}

abbrev pub is_even : Proc → Bool
is_even p = p.pid % 2 == 0

-- The slot that the first loop, at slot `i`, switches to; `none` is its end.
unfoldable pub next_even : List Proc → ℕ → Option ℕ
next_even ps i = find_from (λ p. is_even p && is_runnable p.state) (drop i ps) i

-- How a pass of the second loop ends: with `goto even`, or with `p`, null for the end of the round.
pub data Pass : Type 0 where
  goto_even : Pass
  picked : Option ℕ → Pass

-- The pass over the slots that are left, from slot `i` on, with `tmp` and `p`.
unfoldable pub fcfs_from : List Proc → ℕ → ℕ → Option ℕ → Pass
fcfs_from [] i tmp p = picked p
fcfs_from (q ∷ qs) i tmp p =
    let skip = fcfs_from qs (i + 1) tmp p in
    let take = fcfs_from qs (i + 1) q.pid (some i) in
    if is_runnable q.state
    then (if is_even q then goto_even else (if tmp == 0 || ltb q.pid tmp then take else skip))
    else skip

abbrev pub fcfs : List Proc → Pass
fcfs ps = fcfs_from ps 0 0 none
