-- ===== src/Thread/Tids.antt =====
-- What the functions of proc.c do to thread ids and return values: all but thread_create and
-- thread_exit keep a slot's id or make it 0.
use hyu_ele3021_os.Base.{
  ℕ, zero, suc, ◌+◌, ◌≡◌, refl, ◌∙◌, ap, true, some, List, [], ◌∷◌, arith, if◌then◌else◌, ◌==◌,
  get_or, set, length, length-set, Bool-cases, Option-cases, not, ◌||◌, ◌⊎◌, inl, inr,
}
use hyu_ele3021_os.Mlfq.{Chan, proc_chan, nproc, is_zombie, is_slot}
use hyu_ele3021_os.Thread.{Proc, PTable, zero_proc, proc_at, put_proc, wake, wake_all, wakeup1}
use hyu_ele3021_os.Thread.Ending.{
  cleared, thread_clear, clear_slot, clear_pass, reparent, exit, kill_threads,
}

-- Each slot keeps its id and its return value, or has the id 0.
pub record Tids (t t' : PTable) : Type 0 where
  pub size : length t'.proc ≡ length t.proc
  pub next : t'.nexttid ≡ t.nexttid
  pub slot :
      (i : ℕ)
      → (((proc_at t' i).tid ≡ (proc_at t i).tid) × ((proc_at t' i).retval ≡ (proc_at t i).retval))
        ⊎ ((proc_at t' i).tid ≡ 0)

pub Tids-refl : (t : PTable) → Tids t t
Tids-refl t = record { size = refl; next = refl; slot = λ i. inl (refl, refl) }

pub Tids-trans : {a b c : PTable} → Tids a b → Tids b c → Tids a c
Tids-trans {a} {b} {c} x y = record {
  size = y.size ∙ x.size;
  next = y.next ∙ x.next;
  slot = λ i. elim (y.slot i) [
    | inr z ↦ inr z
    | inl (s, r) ↦ elim (x.slot i) [ inl (s', r') ↦ inl (s ∙ s', r ∙ r') | inr z ↦ inr (s ∙ z) ]
  ];
}

set-at :
    (ps : List Proc) (i j : ℕ) (p : Proc)
    → ((get_or (set ps i p) j zero_proc ≡ p) × (i ≡ j))
      ⊎ (get_or (set ps i p) j zero_proc ≡ get_or ps j zero_proc)
set-at [] i j p = inr refl
set-at (q ∷ ps) zero zero p = inl (refl, refl)
set-at (q ∷ ps) zero (suc j) p = inr refl
set-at (q ∷ ps) (suc i) zero p = inr refl
set-at (q ∷ ps) (suc i) (suc j) p = elim (set-at ps i j p) [
  | inl (e, same) ↦ inl (e, ap suc same)
  | inr e ↦ inr e
]

-- A slot after a write is what was written, or what it was.
pub put-at :
    (t : PTable) (i j : ℕ) (p : Proc)
    → ((proc_at (put_proc t i p) j ≡ p) × (i ≡ j)) ⊎ (proc_at (put_proc t i p) j ≡ proc_at t j)
put-at t i j p = set-at t.proc i j p

set_self :
    (ps : List Proc) (i : ℕ) (p : Proc)
    → (get_or (set ps i p) i zero_proc ≡ p) ⊎ (get_or ps i zero_proc ≡ zero_proc)
set_self [] i p = inr refl
set_self (q ∷ ps) zero p = inl refl
set_self (q ∷ ps) (suc i) p = set_self ps i p

-- What was written is there, unless the slot is not in the table.
pub put_self :
    (t : PTable) (i : ℕ) (p : Proc) → (proc_at (put_proc t i p) i ≡ p) ⊎ (proc_at t i ≡ zero_proc)
put_self t i p = set_self t.proc i p

-- A write of a slot that keeps its id and its return value, or makes the id 0.
pub put-Tids :
    (t : PTable) (i : ℕ) (p : Proc)
    → ((p.tid ≡ (proc_at t i).tid) × (p.retval ≡ (proc_at t i).retval)) ⊎ (p.tid ≡ 0)
    → Tids t (put_proc t i p)
put-Tids t i p kept = record {
  size = length-set t.proc i p;
  next = refl;
  slot = λ j. elim (put-at t i j p) [
    | inr e ↦ inl (ap (λ q. q.tid) e, ap (λ q. q.retval) e)
    | inl (e, same) ↦ elim kept [
      | inl (s, r) ↦ inl (
        ap (λ q. q.tid) e ∙ s ∙ ap (λ n. (proc_at t n).tid) same,
        ap (λ q. q.retval) e ∙ r ∙ ap (λ n. (proc_at t n).retval) same,
      )
      | inr z ↦ inr (ap (λ q. q.tid) e ∙ z)
    ]
  ];
}

pub wake-tid : (ch : Chan) (p : Proc) → ((wake ch p).tid ≡ p.tid) × ((wake ch p).retval ≡ p.retval)
wake-tid ch p = (ground arith, ground arith)

wake_all-at :
    (ch : Chan) (ps : List Proc) (i : ℕ)
    → (get_or (wake_all ch ps) i zero_proc ≡ wake ch (get_or ps i zero_proc))
      × (length (wake_all ch ps) ≡ length ps)
unfolding wake_all
wake_all-at ch [] i = (refl, refl)
wake_all-at ch (p ∷ ps) zero = (refl, ap suc (wake_all-at ch ps 0).1)
wake_all-at ch (p ∷ ps) (suc i) = ((wake_all-at ch ps i).0, ap suc (wake_all-at ch ps i).1)

pub wakeup1-at : (ch : Chan) (t : PTable) (i : ℕ) → proc_at (wakeup1 ch t) i ≡ wake ch (proc_at t i)
unfolding wakeup1
wakeup1-at ch t i = (wake_all-at ch t.proc i).0

pub wakeup1-Tids : (ch : Chan) (t : PTable) → Tids t (wakeup1 ch t)
unfolding wakeup1
wakeup1-Tids ch t = record {
  size = (wake_all-at ch t.proc 0).1;
  next = refl;
  slot = λ i.
      let e = wakeup1-at ch t i in
      let (s, r) = wake-tid ch (proc_at t i) in
      inl (ap (λ q. q.tid) e ∙ s, ap (λ q. q.retval) e ∙ r);
}

pub clear_slot-Tids : (cur : ℕ) (t : PTable) (i : ℕ) → Tids t (clear_slot cur t i).0
unfolding clear_slot thread_clear
clear_slot-Tids cur t i =
    elim (Bool-cases (not ((proc_at t i).pid == (proc_at t cur).pid) || i == cur)) [
      | inl skip ↦ rw skip (Tids-refl t)
      | inr thread ↦ elim (Bool-cases (is_zombie (proc_at t i).state)) [
        | inl dead ↦ rw (thread, dead) (put-Tids t i (cleared (proc_at t i)) (inr refl))
        | inr live ↦
            let p' : Proc = record (proc_at t i) { killed = true } in
            rw (thread, live)
              (Tids-trans (put-Tids t i p' (inl (refl, refl)))
                (wakeup1-Tids (proc_chan i) (put_proc t i p')))
      ]
    ]

pub clear_pass-Tids : (n i cur : ℕ) (t : PTable) (h : ℕ) → Tids t (clear_pass n i cur t h).0
unfolding clear_pass
clear_pass-Tids zero i cur t h = Tids-refl t
clear_pass-Tids (suc n) i cur t h =
    Tids-trans (clear_slot-Tids cur t i) (clear_pass-Tids n (i + 1) cur _ _)

pub reparent-Tids : (n i cur init : ℕ) (t : PTable) → Tids t (reparent n i cur init t)
unfolding reparent
reparent-Tids zero i cur init t = Tids-refl t
reparent-Tids (suc n) i cur init t = Tids-trans turn (reparent-Tids n (i + 1) cur init _)
  where
    moved : PTable
    moved = put_proc t i (record (proc_at t i) { parent = some init })

    turn : Tids t (
        if is_slot (proc_at t i).parent cur
        then (if is_zombie (proc_at t i).state then wakeup1 (proc_chan init) moved else moved)
        else t)
    turn = elim (Bool-cases (is_slot (proc_at t i).parent cur)) [
      | inr other ↦ rw other (Tids-refl t)
      | inl child ↦ elim (Bool-cases (is_zombie (proc_at t i).state)) [
        | inl dead ↦
            rw (child, dead)
              (Tids-trans (put-Tids t i _ (inl (refl, refl))) (wakeup1-Tids (proc_chan init) moved))
        | inr live ↦ rw (child, live) (put-Tids t i _ (inl (refl, refl)))
      ]
    ]

pub kill_threads-Tids : (n i init pid cp : ℕ) (t : PTable) → Tids t (kill_threads n i init pid cp t)
unfolding kill_threads thread_clear
kill_threads-Tids zero i init pid cp t = Tids-refl t
kill_threads-Tids (suc n) i init pid cp t =
    elim (Bool-cases (not ((proc_at t i).pid == pid) || i == cp)) [
      | inl skip ↦ rw skip (kill_threads-Tids n (i + 1) init pid cp t)
      | inr hit ↦ rw hit (
          Tids-trans (Tids-trans (reparent-Tids nproc 0 i init t) (put-Tids _ i _ (inr refl)))
            (kill_threads-Tids n (i + 1) init pid cp _))
    ]

pub exit-Tids : (init : ℕ) (t : PTable) (cur : ℕ) → Tids t (exit init t cur)
unfolding exit
exit-Tids init t cur = elim (Option-cases (proc_at t cur).main) [
  | inl e ↦ rw e (
      Tids-trans (Tids-trans (wakeup1-Tids _ t) (reparent-Tids nproc 0 cur init _))
        (put-Tids _ cur _ (inl (refl, refl))))
  | inr (m, e) ↦ rw e (
      Tids-trans
        (Tids-trans (Tids-trans (put-Tids t m _ (inl (refl, refl))) (wakeup1-Tids _ _))
          (reparent-Tids nproc 0 cur init _))
        (put-Tids _ cur _ (inl (refl, refl))))
]
