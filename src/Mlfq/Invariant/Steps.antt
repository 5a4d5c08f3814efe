-- ===== src/Mlfq/Invariant/Steps.antt =====
-- Each operation of proc_MLFQ.c keeps the invariant.
use hyu_ele3021_os.Base.{
  ℕ, ◌+◌, ◌-◌, ◌<◌, ◌≡◌, refl, Bool, true, false, List, arith, if◌then◌else◌, ◌==◌, ◌&&◌,
  Bool-cases, inl, inr, Option, some, Option-cases, not, ltb,
}
use hyu_ele3021_os.Base.Words.{inc32, at_least}
use hyu_ele3021_os.Mlfq.{
  Proc, PTable, proc_at, put_proc, nproc, Chan, is_sleeping, is_runnable, is_unused, find_from,
  allocproc, set_kstack, fork_parent, make_runnable, setpriority, is_slot,
}
use hyu_ele3021_os.Mlfq.Queue.{kill, yield, sleep, awake, quantum, expire, degrade, rst}
use hyu_ele3021_os.Mlfq.Scheduler.{dispatch}
use hyu_ele3021_os.Mlfq.Invariant.{Inv}
use hyu_ele3021_os.Mlfq.Invariant.Slot.{found-at, put_proc-Inv, enter-Inv, leave-Inv, move-Inv}

-- `k` levels, a slot of the table, and its process.
abbrev child : ℕ → ℕ → Proc → Bool
child cur pid p = not (is_unused p.state) && is_slot p.parent cur && p.pid == pid

module _ {k : ℕ} {t : PTable} (v : Inv k t) where
  pub allocproc-Inv : Inv k (allocproc t).0
  unfolding allocproc
  allocproc-Inv = elim (Option-cases (find_from (λ p. is_unused p.state) t.proc 0)) [
    | inl e ↦ rw (e, allocproc) v
    | inr (i, e) ↦
        let (lt, free) = found-at (λ p. is_unused p.state) t e in
        rw (e, allocproc)
          (Inv-put-counter
            (put_proc-Inv v i _ (omega (arith, v.size)) v.some_level (λ l. ground arith)))
  ]
    where
      Inv-put-counter : {u : PTable} {n : ℕ} → Inv k u → Inv k (record u { nextpid = n })
      Inv-put-counter w = record {
        size = w.size;
        queues = w.queues;
        some_level = w.some_level;
        levels = w.levels;
        counted = w.counted;
      }

  pub setpriority-Inv : (cur pid priority : ℕ) → Inv k (setpriority t cur pid priority).0
  unfolding setpriority
  setpriority-Inv cur pid priority = elim (Bool-cases (ltb 10 priority)) [
    | inl bad ↦ rw bad v
    | inr good ↦ rw good (elim (Option-cases (find_from (child cur pid) t.proc 0)) [
      | inl e ↦ rw e v
      | inr (i, e) ↦
          let (lt, _) = found-at (child cur pid) t e in
          rw e (put_proc-Inv v i _ (omega (arith, v.size)) (v.levels i) (λ l. refl))
    ])
  ]

  pub kill-Inv : (pid : ℕ) → Inv k (kill t pid).0
  unfolding kill
  kill-Inv pid = elim (Option-cases (find_from (λ p. p.pid == pid) t.proc 0)) [
    | inl e ↦ rw (e, kill) v
    | inr (i, e) ↦
        let (lt, _) = found-at (λ p. p.pid == pid) t e in
        elim (Bool-cases (is_sleeping (proc_at t i).state)) [
          | inl s ↦
              rw (e, kill, s)
                (enter-Inv v i _ _ (omega (arith, v.size)) (ground arith) (v.levels i) refl refl
                  refl)
          | inr s ↦
              rw (e, kill, s) (put_proc-Inv v i _ (omega (arith, v.size)) (v.levels i) (λ l. refl))
        ]
  ]

Inv-heads : {k : ℕ} {t : PTable} (hs : List (Option ℕ)) → Inv k t → Inv k (record t { heads = hs })
Inv-heads hs v = record {
  size = v.size;
  queues = v.queues;
  some_level = v.some_level;
  levels = v.levels;
  counted = v.counted;
}

module _ {k : ℕ} {t : PTable} (v : Inv k t) (i : ℕ) (h : i < nproc) where
  pub set_kstack-Inv :
      (page : ℕ) → is_runnable (proc_at t i).state ≡ false → Inv k (set_kstack t i page).0
  unfolding set_kstack
  set_kstack-Inv page s = elim (Bool-cases (page == 0)) [
    | inl e ↦ rw e (put_proc-Inv v i _ h (v.levels i) (λ l. ground arith))
    | inr e ↦ rw e (put_proc-Inv v i _ h (v.levels i) (λ l. refl))
  ]

  pub fork_parent-Inv :
      (cur : ℕ) (copied : Bool)
      → is_runnable (proc_at t i).state ≡ false
      → Inv k (fork_parent t cur i copied).0
  unfolding fork_parent
  fork_parent-Inv cur true s = put_proc-Inv v i _ h (v.levels i) (λ l. refl)
  fork_parent-Inv cur false s = put_proc-Inv v i _ h (v.levels i) (λ l. ground arith)

  pub make_runnable-Inv : is_runnable (proc_at t i).state ≡ false → Inv k (make_runnable t i)
  unfolding make_runnable
  make_runnable-Inv s = enter-Inv v i _ _ h s (v.levels i) refl refl refl

  pub yield-Inv : is_runnable (proc_at t i).state ≡ false → Inv k (yield t i)
  unfolding yield
  yield-Inv s = enter-Inv v i _ _ h s (v.levels i) refl refl refl

  pub sleep-Inv : (ch : Chan) → is_runnable (proc_at t i).state ≡ false → Inv k (sleep t i ch)
  unfolding sleep
  sleep-Inv ch s = put_proc-Inv v i _ h (v.levels i) (λ l. ground arith)

  pub awake-Inv : Inv k (awake t i)
  unfolding awake
  awake-Inv = put_proc-Inv v i _ h (v.levels i) (λ l. refl)

  pub dispatch-Inv : is_runnable (proc_at t i).state ≡ true → Inv k (dispatch t i)
  unfolding dispatch
  dispatch-Inv s = leave-Inv v i _ _ h s (v.levels i) refl refl refl

  pub rst-Inv : Inv k (rst t i)
  unfolding rst
  rst-Inv = elim (Bool-cases (is_runnable (proc_at t i).state)) [
    | inl s ↦ rw (s, rst) (move-Inv v i _ _ h s v.some_level s refl refl)
    | inr s ↦ rw s (put_proc-Inv v i _ h v.some_level (λ l. ground arith))
  ]

  expire-Inv : Inv k (expire k t i)
  unfolding expire
  expire-Inv = elim (Bool-cases ((proc_at t i).level == k - 1)) [
    | inl last ↦ rw last (Inv-heads _ (put_proc-Inv v i _ h (v.levels i) (λ l. refl)))
    | inr inner ↦
        let level : (proc_at t i).level + 1 < k = ground (arith, v.levels i) in
        elim (Bool-cases (is_runnable (proc_at t i).state)) [
          | inl s ↦ rw (inner, s) (move-Inv v i _ _ h s level s refl refl)
          | inr s ↦ rw (inner, s) (Inv-heads _ (put_proc-Inv v i _ h level (λ l. ground arith)))
        ]
  ]

  degrade_cases :
      {t' : PTable}
      → degrade k t (some i) ≡ some t'
      → (b : Bool) × (t' ≡ (
          if b
          then expire k t i
          else put_proc t i (record (proc_at t i) { extime = inc32 (proc_at t i).extime })))
  unfolding degrade
  degrade_cases e =
      (at_least (quantum (proc_at t i).level) (inc32 (proc_at t i).extime), ground arith)

  -- `degrade`, unless it panics.
  pub degrade-Inv : {t' : PTable} → degrade k t (some i) ≡ some t' → Inv k t'
  degrade-Inv e = by_case (degrade_cases e).0 (degrade_cases e).1
    where
      by_case :
          {t' : PTable} (b : Bool)
          → t' ≡ (
              if b
              then expire k t i
              else put_proc t i (record (proc_at t i) { extime = inc32 (proc_at t i).extime }))
          → Inv k t'
      by_case true e = rw e expire-Inv
      by_case false e = rw e (put_proc-Inv v i _ h (v.levels i) (λ l. refl))
