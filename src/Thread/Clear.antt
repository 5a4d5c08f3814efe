-- ===== src/Thread/Clear.antt =====
-- `clear_subthreads` of proc.c: what it leaves when it returns, and when it cannot return.
use hyu_ele3021_os.Base.{
  ℕ, zero, suc, ◌+◌, ◌≤◌, ◌<◌, ◌≡◌, ◌≢◌, refl, sym, ◌∙◌, ap, subst, true, false, not, ◌||◌, arith,
  ◌==◌, Bool-cases, ◌⊎◌, inl, inr,
}
use native.Mathlib.Decide.{ℕ_discrete}
use hyu_ele3021_os.Mlfq.{is_zombie, nproc}
use hyu_ele3021_os.Thread.{PTable, proc_at, put_proc}
use hyu_ele3021_os.Thread.Ending.{cleared, thread_clear, clear_slot, clear_pass, clear_subthreads}
use hyu_ele3021_os.Thread.Tids.{put-at, put_self}

-- A slot that a pass for the process `pid` with main thread `cur` may clear.
abbrev pub Dead : PTable → ℕ → ℕ → ℕ → Type 0
Dead t cur pid j = ((proc_at t j).pid ≡ pid) × (j ≢ cur) × (is_zombie (proc_at t j).state ≡ true)

-- The slots after a change: as they were, or cleared and dead before.
abbrev pub Cleared : ℕ → ℕ → PTable → PTable → Type 0
Cleared cur pid t t' =
    (j : ℕ)
    → (proc_at t' j ≡ proc_at t j) ⊎ ((proc_at t' j ≡ cleared (proc_at t j)) × Dead t cur pid j)

-- A turn that counts no thread leaves its slot with another pid, or is the turn of `cur`.
clear_slot-dead :
    (cur i : ℕ) (t : PTable)
    → (clear_slot cur t i).1 ≡ false
    → (proc_at t cur).pid ≢ 0
    → Cleared cur (proc_at t cur).pid t (clear_slot cur t i).0
      × (i ≢ cur → (proc_at (clear_slot cur t i).0 i).pid ≢ (proc_at t cur).pid)
unfolding clear_slot thread_clear
clear_slot-dead cur i t e real =
    elim (Bool-cases (not ((proc_at t i).pid == (proc_at t cur).pid) || i == cur)) [
      | inl skip ↦ rw (skip, clear_slot) (λ j. inl refl, λ other s. ground arith)
      | inr hit ↦ elim (Bool-cases (is_zombie (proc_at t i).state)) [
        | inr live ↦ absurd (cc (rw (hit, live, clear_slot) at e))
        | inl dead ↦
            rw (hit, dead, clear_slot)
              (slots dead (ground arith) (ground arith), λ other s. here (ground arith) s)
      ]
    ]
  where
    slots :
        is_zombie (proc_at t i).state ≡ true
        → (proc_at t i).pid ≡ (proc_at t cur).pid
        → i ≢ cur
        → Cleared cur (proc_at t cur).pid t (put_proc t i (cleared (proc_at t i)))
    slots dead mine other j = elim (put-at t i j (cleared (proc_at t i))) [
      | inr e ↦ inl e
      | inl (e, same) ↦
          subst
            (λ n.
              (proc_at (put_proc t i (cleared (proc_at t i))) n ≡ proc_at t n)
              ⊎ ((proc_at (put_proc t i (cleared (proc_at t i))) n ≡ cleared (proc_at t n))
                  × Dead t cur (proc_at t cur).pid n))
            same
            (inr (
              subst (λ n. proc_at (put_proc t i (cleared (proc_at t i))) n ≡ cleared (proc_at t i))
                  (sym same) e,
              (mine, other, dead),
            ))
    ]

    here :
        (proc_at t i).pid ≡ (proc_at t cur).pid
        → (proc_at (put_proc t i (cleared (proc_at t i))) i).pid ≡ (proc_at t cur).pid
        → ⊥
    here mine s = elim (put_self t i (cleared (proc_at t i))) [
      | inl e ↦ real (sym s ∙ ap (λ p. p.pid) e)
      | inr e ↦ real (sym mine ∙ ap (λ p. p.pid) e)
    ]

-- A live thread is counted.
clear_pass-count : (n i cur : ℕ) (t : PTable) (h : ℕ) → h ≤ (clear_pass n i cur t h).1
unfolding clear_pass
clear_pass-count zero i cur t h = omega arith
clear_pass-count (suc n) i cur t h = elim (Bool-cases (clear_slot cur t i).1) [
  | inl live ↦
      rw (live, clear_pass)
        (omega (arith, clear_pass-count n (i + 1) cur (clear_slot cur t i).0 (h + 1)))
  | inr dead ↦ rw (dead, clear_pass) (clear_pass-count n (i + 1) cur (clear_slot cur t i).0 h)
]

-- The process's own slot is not touched where only dead slots are cleared.
Cleared-cur : {cur pid : ℕ} (t t' : PTable) → Cleared cur pid t t' → proc_at t' cur ≡ proc_at t cur
Cleared-cur {cur} t t' c = elim (c cur) [ inl e ↦ e | inr (e, d) ↦ absurd (d.1 refl) ]

Cleared-trans :
    {cur pid : ℕ} (a b c : PTable) → Cleared cur pid a b → Cleared cur pid b c → Cleared cur pid a c
Cleared-trans a b c x y j = elim (y j) [
  | inl e ↦ elim (x j) [ inl e' ↦ inl (e ∙ e') | inr (e', d) ↦ inr (e ∙ e', d) ]
  | inr (e, d') ↦ elim (x j) [
    | inl e' ↦ inr (
      e ∙ ap cleared e',
      (sym (ap (λ p. p.pid) e') ∙ d'.0, d'.1, sym (ap (λ p. is_zombie p.state) e') ∙ d'.2),
    )
    | inr (e', d) ↦ absurd (cc (sym (ap (λ p. is_zombie p.state) e') ∙ d'.2))
  ]
]

-- A slot that has another pid, or is cleared, has another pid than `pid` after.
Cleared-pid :
    {cur pid : ℕ} (a b : PTable) (j : ℕ)
    → pid ≢ 0
    → Cleared cur pid a b
    → (proc_at a j).pid ≢ pid
    → (proc_at b j).pid ≢ pid
Cleared-pid a b j real c other s = elim (c j) [
  | inl e ↦ other (sym (ap (λ p. p.pid) e) ∙ s)
  | inr (e, d) ↦ real (sym s ∙ ap (λ p. p.pid) e)
]

clear_pass-dead :
    (n i cur : ℕ) (t : PTable) (h : ℕ)
    → (proc_at t cur).pid ≢ 0
    → (clear_pass n i cur t h).1 ≡ h
    → Cleared cur (proc_at t cur).pid t (clear_pass n i cur t h).0
      × ((j : ℕ)
          → i ≤ j
          → j < i + n
          → j ≢ cur
          → (proc_at (clear_pass n i cur t h).0 j).pid ≢ (proc_at t cur).pid)
unfolding clear_pass
clear_pass-dead zero i cur t h real e = (λ j. inl refl, λ j from to other. absurd (omega arith))
clear_pass-dead (suc n) i cur t h real e = elim (Bool-cases (clear_slot cur t i).1) [
  | inl live ↦
      let more = clear_pass-count n (i + 1) cur (clear_slot cur t i).0 (h + 1) in
      absurd (omega (arith, more, rw (live, clear_pass) at e))
  | inr quiet ↦
      rw (quiet, clear_pass)
        (join (clear_slot-dead cur i t quiet real) (rw (quiet, clear_pass) at e)
          (clear_pass-dead n (i + 1) cur (clear_slot cur t i).0 h))
]
  where
    t1 : PTable
    t1 = (clear_slot cur t i).0

    join :
        Cleared cur (proc_at t cur).pid t t1 × (i ≢ cur → (proc_at t1 i).pid ≢ (proc_at t cur).pid)
        → (clear_pass n (i + 1) cur t1 h).1 ≡ h
        → ((proc_at t1 cur).pid ≢ 0
            → (clear_pass n (i + 1) cur t1 h).1 ≡ h
            → Cleared cur (proc_at t1 cur).pid t1 (clear_pass n (i + 1) cur t1 h).0
              × ((j : ℕ)
                  → i + 1 ≤ j
                  → j < i + 1 + n
                  → j ≢ cur
                  → (proc_at (clear_pass n (i + 1) cur t1 h).0 j).pid ≢ (proc_at t1 cur).pid))
        → Cleared cur (proc_at t cur).pid t (clear_pass n (i + 1) cur t1 h).0
          × ((j : ℕ)
              → i ≤ j
              → j < i + suc n
              → j ≢ cur
              → (proc_at (clear_pass n (i + 1) cur t1 h).0 j).pid ≢ (proc_at t cur).pid)
    join (c, here) run go =
        let own : (proc_at t1 cur).pid ≡ (proc_at t cur).pid =
          ap (λ p. p.pid) (Cleared-cur t t1 c) in
        let (c', gone) = go (λ z. real (sym own ∙ z)) run in
        let c'' = subst (λ p. Cleared cur p t1 (clear_pass n (i + 1) cur t1 h).0) own c' in
        (
          Cleared-trans t t1 (clear_pass n (i + 1) cur t1 h).0 c c'',
          λ j from to other. elim (ℕ_discrete i j) [
            | yes same ↦ Cleared-pid t1 (clear_pass n (i + 1) cur t1 h).0 j real c'' (
                subst (λ k. (proc_at t1 k).pid ≢ (proc_at t cur).pid) same
                  (here (λ e. other (sym same ∙ e))))
            | no later ↦ λ s. gone j (omega (arith, later)) (omega arith) other (s ∙ sym own)
          ],
        )

-- When `clear_subthreads` of a main thread returns, no other slot of the table has the process's pid;
-- every slot is as it was, save zombies of the process, which are cleared.
pub clear_subthreads-alone :
    (t t' : PTable) (cur : ℕ)
    → (proc_at t cur).tid ≡ 0
    → (proc_at t cur).pid ≢ 0
    → clear_subthreads t cur ≡ (t', true)
    → Cleared cur (proc_at t cur).pid t t'
      × ((j : ℕ) → j < nproc → j ≢ cur → (proc_at t' j).pid ≢ (proc_at t cur).pid)
unfolding clear_subthreads
clear_subthreads-alone t t' cur main real e =
    elim (Bool-cases ((clear_pass nproc 0 cur t 0).1 == 0)) [
      | inl over ↦
          let whole : ((proc_at t cur).tid == 0) ≡ true = ground arith in
          let (c, gone) = clear_pass-dead nproc 0 cur t 0 real (ground arith) in
          let same : (clear_pass nproc 0 cur t 0).0 ≡ t' =
            ap (λ p. p.0) (rw (whole, over, clear_subthreads) at e) in
          subst
            (λ u.
              Cleared cur (proc_at t cur).pid t u
              × ((j : ℕ) → j < nproc → j ≢ cur → (proc_at u j).pid ≢ (proc_at t cur).pid))
            same (c, λ j to other. gone j (omega arith) (omega arith) other)
      | inr more ↦
          let whole : ((proc_at t cur).tid == 0) ≡ true = ground arith in
          absurd (cc (ap (λ p. p.1) (rw (whole, more, clear_subthreads) at e)))
    ]

-- A main thread cannot get past `clear_subthreads` while another slot has its pid and is no zombie,
-- whatever the state of that slot is.
pub clear_subthreads-sleeps :
    (t : PTable) (cur j : ℕ)
    → (proc_at t cur).tid ≡ 0
    → (proc_at t cur).pid ≢ 0
    → j < nproc
    → j ≢ cur
    → (proc_at t j).pid ≡ (proc_at t cur).pid
    → is_zombie (proc_at t j).state ≡ false
    → (clear_subthreads t cur).1 ≡ false
clear_subthreads-sleeps t cur j main real h other mine live =
    elim (Bool-cases (clear_subthreads t cur).1) [
      | inr e ↦ e
      | inl e ↦
          let (c, gone) =
            clear_subthreads-alone t (clear_subthreads t cur).0 cur main real
              (ap (λ b. ((clear_subthreads t cur).0, b)) e) in
          elim (c j) [
            | inl same ↦ absurd (gone j h other (ap (λ p. p.pid) same ∙ mine))
            | inr (same, d) ↦ absurd (cc (sym d.2 ∙ live))
          ]
    ]
