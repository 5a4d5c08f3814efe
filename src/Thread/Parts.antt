-- ===== src/Thread/Parts.antt =====
-- What the parts of the functions of proc.c do to thread ids: all but `number_thread` and `thread_exit`.
use hyu_ele3021_os.Base.{
  ℕ, ◌≡◌, refl, Bool, false, Option, none, some, ◌==◌, Bool-cases, Option-cases, not, ◌||◌, ◌⊎◌,
  inl, inr,
}
use hyu_ele3021_os.Mlfq.{embryo, is_unused, is_slot, nproc}
use hyu_ele3021_os.Mlfq.Waiting.{Scan, found, havekids}
use hyu_ele3021_os.Thread.{Proc, PTable, proc_at, find_from, kill, sleep}
use hyu_ele3021_os.Thread.Life.{
  take_slot, give_stack, allocproc, userinit, growproc, grown_slot, fork_into, finish_thread,
}
use hyu_ele3021_os.Thread.Ending.{thread_clear, clear_pass, clear_subthreads}
use hyu_ele3021_os.Thread.Waiting.{scan, wait, thread_join}
use hyu_ele3021_os.Thread.Tids.{Tids, Tids-refl, Tids-trans, put-Tids, clear_pass-Tids}

pub take_slot-Tids : (t : PTable) → Tids t (take_slot t).0
unfolding take_slot
take_slot-Tids t = elim (Option-cases (find_from (λ p. is_unused p.state) t.proc 0)) [
  | inl e ↦ rw (e, take_slot) (Tids-refl t)
  | inr (i, e) ↦
      let p : Proc = record (proc_at t i) {
        state = embryo;
        pid = t.nextpid;
        tid = 0;
        main = none;
      } in
      let s = put-Tids t i p (inr refl) in
      rw (e, take_slot) (record { size = s.size; next = s.next; slot = s.slot })
]

pub give_stack-Tids : (t : PTable) (i page : ℕ) → Tids t (give_stack t i page).0
unfolding give_stack
give_stack-Tids t i page = elim (Bool-cases (page == 0)) [
  | inl failed ↦ rw (failed, give_stack) (put-Tids t i _ (inl (refl, refl)))
  | inr done ↦ rw (done, give_stack) (put-Tids t i _ (inl (refl, refl)))
]

pub allocproc-Tids : (t : PTable) (page : ℕ) → Tids t (allocproc t page).0
unfolding allocproc
allocproc-Tids t page = elim (Option-cases (take_slot t).1) [
  | inl e ↦ rw (e, allocproc) (take_slot-Tids t)
  | inr (i, e) ↦
      rw (e, allocproc) (Tids-trans (take_slot-Tids t) (give_stack-Tids (take_slot t).0 i page))
]

pub fork_into-Tids : (t : PTable) (cur i copied : ℕ) → Tids t (fork_into t cur i copied).0
unfolding fork_into
fork_into-Tids t cur i copied = elim (Bool-cases (copied == 0)) [
  | inl failed ↦ rw (failed, fork_into) (put-Tids t i _ (inl (refl, refl)))
  | inr done ↦ rw (done, fork_into) (put-Tids t i _ (inl (refl, refl)))
]

pub finish_thread-Tids :
    (t : PTable) (m i pgdir sbase sz : ℕ) → Tids t (finish_thread t m i pgdir sbase sz).0
unfolding finish_thread
finish_thread-Tids t m i pgdir sbase sz = elim (Bool-cases (sz == 0)) [
  | inl failed ↦ rw (failed, finish_thread) (put-Tids t i _ (inl (refl, refl)))
  | inr done ↦ rw (done, finish_thread) (put-Tids t i _ (inl (refl, refl)))
]

Scan-cases : (s : Scan) → ((i : ℕ) × (s ≡ found i)) ⊎ ((b : Bool) × (s ≡ havekids b))
Scan-cases (found i) = inl (i, refl)
Scan-cases (havekids b) = inr (b, refl)

pub wait-Tids : (t : PTable) (cur : ℕ) → Tids t (wait t cur).0
unfolding wait sleep
wait-Tids t cur = elim (Scan-cases (scan (λ p. is_slot p.parent cur) t.proc 0 false)) [
  | inl (i, e) ↦ rw (e, wait) (put-Tids t i _ (inl (refl, refl)))
  | inr (b, e) ↦ elim (Bool-cases (not b || (proc_at t cur).killed)) [
    | inl back ↦ rw (e, back, wait) (Tids-refl t)
    | inr stay ↦ rw (e, stay, wait) (put-Tids t cur _ (inl (refl, refl)))
  ]
]

pub thread_join-Tids : (t : PTable) (cur thread : ℕ) → Tids t (thread_join t cur thread).0
unfolding thread_join sleep thread_clear
thread_join-Tids t cur thread = elim (Scan-cases (scan (λ p. p.tid == thread) t.proc 0 false)) [
  | inl (i, e) ↦ rw (e, thread_join) (put-Tids t i _ (inr refl))
  | inr (b, e) ↦ elim (Bool-cases (not b || (proc_at t cur).killed)) [
    | inl back ↦ rw (e, back, thread_join) (Tids-refl t)
    | inr stay ↦ rw (e, stay, thread_join) (put-Tids t cur _ (inl (refl, refl)))
  ]
]

pub kill-Tids : (t : PTable) (pid : ℕ) → Tids t (kill t pid).0
unfolding kill
kill-Tids t pid = elim (Option-cases (find_from (λ p. p.pid == pid) t.proc 0)) [
  | inl e ↦ rw (e, kill) (Tids-refl t)
  | inr (i, e) ↦ rw (e, kill) (put-Tids t i _ (inl (refl, refl)))
]

pub clear_subthreads-Tids : (t : PTable) (cur : ℕ) → Tids t (clear_subthreads t cur).0
unfolding clear_subthreads sleep
clear_subthreads-Tids t cur = elim (Bool-cases ((proc_at t cur).tid == 0)) [
  | inr thread ↦ rw (thread, clear_subthreads) (Tids-refl t)
  | inl whole ↦ elim (Bool-cases ((clear_pass nproc 0 cur t 0).1 == 0)) [
    | inl over ↦ rw (whole, over, clear_subthreads) (clear_pass-Tids nproc 0 cur t 0)
    | inr more ↦
        rw (whole, more, clear_subthreads)
          (Tids-trans (clear_pass-Tids nproc 0 cur t 0) (put-Tids _ cur _ (inl (refl, refl))))
  ]
]

-- A table that a function gives, if it gives one.
abbrev pub Gives : {X : Type 0} → PTable → Option (PTable × X) → Type 0
Gives t none = Unit {0}
Gives t (some r) = Tids t r.0

pub growproc-Gives : (t : PTable) (cur n sz : ℕ) → Gives t (growproc t cur n sz)
unfolding growproc
growproc-Gives t cur n sz = elim (Option-cases (grown_slot t cur)) [
  | inl lost ↦ rw (lost, growproc) tt
  | inr (m, is) ↦ elim (Bool-cases (n == 0)) [
    | inl still ↦ rw (is, still, growproc) (Tids-refl t)
    | inr moves ↦ elim (Bool-cases (sz == 0)) [
      | inl failed ↦ rw (is, moves, failed, growproc) (Tids-refl t)
      | inr done ↦ rw (is, moves, done, growproc) (put-Tids t m _ (inl (refl, refl)))
    ]
  ]
]

pub userinit-Gives : (t : PTable) (page pgdir : ℕ) → Gives t (userinit t page pgdir)
unfolding userinit
userinit-Gives t page pgdir = elim (Option-cases (allocproc t page).1) [
  | inl lost ↦ rw (lost, userinit) tt
  | inr (j, is) ↦ elim (Bool-cases (pgdir == 0)) [
    | inl failed ↦ rw (is, failed, userinit) tt
    | inr done ↦
        rw (is, done, userinit)
          (Tids-trans (allocproc-Tids t page) (put-Tids _ j _ (inl (refl, refl))))
  ]
]
