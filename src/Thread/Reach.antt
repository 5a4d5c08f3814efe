-- ===== src/Thread/Reach.antt =====
-- The process table of proc.c under interleavings of the parts of its functions.
use hyu_ele3021_os.Base.{
  ℕ, ◌+◌, ◌^◌, ◌<◌, ◌≡◌, ◌≢◌, refl, sym, ◌∙◌, ap, subst, Bool, some, arith, get_or-replicate, ◌⊎◌,
  inl, inr,
}
use hyu_ele3021_os.Base.Words.{inc32}
use hyu_ele3021_os.Mlfq.{Chan, nproc}
use hyu_ele3021_os.Thread.{
  Proc, PTable, zero_proc, proc_at, put_proc, boot, wakeup1, kill, yield, sleep, awake, dispatch,
}
use hyu_ele3021_os.Thread.Life.{
  take_slot, give_stack, userinit, growproc, fork_into, number_thread, finish_thread,
}
use hyu_ele3021_os.Thread.Ending.{clear_subthreads, kill_threads_except, exit, thread_exit}
use hyu_ele3021_os.Thread.Waiting.{wait, thread_join}
use hyu_ele3021_os.Thread.Tids.{
  Tids, Tids-trans, put-at, put-Tids, wakeup1-Tids, kill_threads-Tids, exit-Tids,
}
use hyu_ele3021_os.Thread.Parts.{
  Gives, take_slot-Tids, give_stack-Tids, fork_into-Tids, finish_thread-Tids, wait-Tids,
  thread_join-Tids, kill-Tids, clear_subthreads-Tids, growproc-Gives, userinit-Gives,
}

-- One stretch of a function of proc.c under `ptable.lock`, or one part of allocproc, fork or
-- thread_create without it, for any caller. Between `takes_slot`, `gets_stack`, `copies`, `numbers` and
-- `finishes` of one caller any other steps may come, so creations interleave; but `numbers`, which reads
-- and writes `nexttid` without a lock, is one step, so that two of them do not overlap. Fewer than
-- 2 ^ 32 - 1 threads are created.
pub data Step (t : PTable) : PTable → Type 0 where
  takes_slot : Step t (take_slot t).0
  gets_stack : (i page : ℕ) → Step t (give_stack t i page).0
  starts_init : (page pgdir i : ℕ) {t' : PTable} → userinit t page pgdir ≡ some (t', i) → Step t t'
  grows : (cur n sz : ℕ) {t' : PTable} {ok : Bool} → growproc t cur n sz ≡ some (t', ok) → Step t t'
  copies : (cur i copied : ℕ) → Step t (fork_into t cur i copied).0
  numbers : (m i : ℕ) → t.nexttid + 1 < 2 ^ 32 → Step t (number_thread t m i)
  finishes : (m i pgdir sbase sz : ℕ) → Step t (finish_thread t m i pgdir sbase sz).0
  clears : (cur : ℕ) → Step t (clear_subthreads t cur).0
  kills_threads : (init pid cp : ℕ) → Step t (kill_threads_except init t pid cp)
  exits : (init cur : ℕ) → Step t (exit init t cur)
  exits_thread : (cur retval : ℕ) → Step t (thread_exit t cur retval)
  waits : (cur : ℕ) → Step t (wait t cur).0
  joins : (cur thread : ℕ) → Step t (thread_join t cur thread).0
  wakes_up : (ch : Chan) → Step t (wakeup1 ch t)
  kills : (pid : ℕ) → Step t (kill t pid).0
  yields : (cur : ℕ) → Step t (yield t cur)
  sleeps : (cur : ℕ) (ch : Chan) → Step t (sleep t cur ch)
  wakes : (cur : ℕ) → Step t (awake t cur)
  switches : (i : ℕ) → Step t (dispatch t i)

pub data Reach : PTable → Type 0 where
  booted : Reach boot
  later : {t t' : PTable} → Reach t → Step t t' → Reach t'

-- The ids are below `nexttid`, and no two slots have the same one, 0 excepted.
pub record Inv (t : PTable) : Type 0 where
  pub some_next : 0 < t.nexttid
  pub below : (i : ℕ) → (proc_at t i).tid < t.nexttid
  pub unique : (i j : ℕ) → (proc_at t i).tid ≢ 0 → (proc_at t i).tid ≡ (proc_at t j).tid → i ≡ j

ids-Inv :
    {t t' : PTable}
    → Inv t
    → t'.nexttid ≡ t.nexttid
    → ((i : ℕ) → ((proc_at t' i).tid ≡ (proc_at t i).tid) ⊎ ((proc_at t' i).tid ≡ 0))
    → Inv t'
ids-Inv {t} {t'} v next slot = record {
  some_next = omega (arith, v.some_next);
  below =
      λ i. elim (slot i) [ inl e ↦ omega (arith, v.below i) | inr z ↦ omega (arith, v.some_next) ];
  unique = λ i j nonzero e. elim (slot i) [
    | inr z ↦ absurd (nonzero z)
    | inl ei ↦ elim (slot j) [
      | inr z ↦ absurd (nonzero (e ∙ z))
      | inl ej ↦ v.unique i j (λ z. nonzero (ei ∙ z)) (sym ei ∙ e ∙ ej)
    ]
  ];
}

Tids-Inv : {t t' : PTable} → Tids t t' → Inv t → Inv t'
Tids-Inv s v = ids-Inv v s.next (λ i. elim (s.slot i) [ inl (e, r) ↦ inl e | inr z ↦ inr z ])

-- A table in which only slot `i` may have got the next id.
fresh-Inv :
    {t t' : PTable} (i : ℕ)
    → Inv t
    → t.nexttid + 1 < 2 ^ 32
    → t'.nexttid ≡ inc32 t.nexttid
    → ((j : ℕ)
        → ((proc_at t' j).tid ≡ (proc_at t j).tid) ⊎ (((proc_at t' j).tid ≡ t.nexttid) × (i ≡ j)))
    → Inv t'
fresh-Inv {t} {t'} i v few next slot = record {
  some_next = omega arith;
  below = λ j. elim (slot j) [ inl e ↦ omega (arith, v.below j) | inr (e, s) ↦ omega arith ];
  unique = λ a b nonzero e. elim (slot a) [
    | inl ea ↦ elim (slot b) [
      | inl eb ↦ v.unique a b (λ z. nonzero (ea ∙ z)) (sym ea ∙ e ∙ eb)
      | inr (eb, s) ↦ absurd (omega (arith, v.below a))
    ]
    | inr (ea, s) ↦ elim (slot b) [
      | inl eb ↦ absurd (omega (arith, v.below b))
      | inr (eb, s') ↦ sym s ∙ s'
    ]
  ];
}

-- Slot `i` gets an id, and slot `m` keeps its own.
numbered-slot :
    (t : PTable) (m i j : ℕ) (np q : Proc)
    → q.tid ≡ (proc_at (put_proc t i np) m).tid
    → ((proc_at (put_proc (put_proc t i np) m q) j).tid ≡ (proc_at t j).tid)
      ⊎ (((proc_at (put_proc (put_proc t i np) m q) j).tid ≡ np.tid) × (i ≡ j))
numbered-slot t m i j np q eq = elim (put-at t i j np) [
  | inl (e1, s) ↦ inr (kept ∙ ap (λ p. p.tid) e1, s)
  | inr e1 ↦ inl (kept ∙ ap (λ p. p.tid) e1)
]
  where
    kept : (proc_at (put_proc (put_proc t i np) m q) j).tid ≡ (proc_at (put_proc t i np) j).tid
    kept = elim (put-at (put_proc t i np) m j q) [
      | inl (e, s) ↦ ap (λ p. p.tid) e ∙ eq ∙ ap (λ n. (proc_at (put_proc t i np) n).tid) s
      | inr e ↦ ap (λ p. p.tid) e
    ]

number_thread-Inv :
    {t : PTable} (m i : ℕ) → Inv t → t.nexttid + 1 < 2 ^ 32 → Inv (number_thread t m i)
unfolding number_thread
number_thread-Inv {t} m i v few = fresh-Inv i v few refl (λ j. numbered-slot t m i j _ _ refl)

thread_exit-Inv : {t : PTable} (cur retval : ℕ) → Inv t → Inv (thread_exit t cur retval)
unfolding thread_exit
thread_exit-Inv {t} cur retval v =
    Tids-Inv (Tids-trans (wakeup1-Tids _ t1) (put-Tids _ cur _ (inl (refl, refl))))
      (ids-Inv v refl slot)
  where
    t1 : PTable
    t1 = put_proc t cur (record (proc_at t cur) { retval = retval })

    slot : (i : ℕ) → ((proc_at t1 i).tid ≡ (proc_at t i).tid) ⊎ ((proc_at t1 i).tid ≡ 0)
    slot i = elim (put-at t cur i (record (proc_at t cur) { retval = retval })) [
      | inl (e, s) ↦ inl (ap (λ p. p.tid) e ∙ ap (λ n. (proc_at t n).tid) s)
      | inr e ↦ inl (ap (λ p. p.tid) e)
    ]

Step-Inv : {t t' : PTable} → Step t t' → Inv t → Inv t'
unfolding yield sleep awake dispatch
Step-Inv {t} takes_slot v = Tids-Inv (take_slot-Tids t) v
Step-Inv {t} (gets_stack i page) v = Tids-Inv (give_stack-Tids t i page) v
Step-Inv {t} (starts_init page pgdir i e) v =
    Tids-Inv (subst (Gives t) e (userinit-Gives t page pgdir)) v
Step-Inv {t} (grows cur n sz e) v = Tids-Inv (subst (Gives t) e (growproc-Gives t cur n sz)) v
Step-Inv {t} (copies cur i copied) v = Tids-Inv (fork_into-Tids t cur i copied) v
Step-Inv {t} (numbers m i few) v = number_thread-Inv m i v few
Step-Inv {t} (finishes m i pgdir sbase sz) v = Tids-Inv (finish_thread-Tids t m i pgdir sbase sz) v
Step-Inv {t} (clears cur) v = Tids-Inv (clear_subthreads-Tids t cur) v
Step-Inv {t} (kills_threads init pid cp) v = Tids-Inv (kill_threads-Tids nproc 0 init pid cp t) v
Step-Inv {t} (exits init cur) v = Tids-Inv (exit-Tids init t cur) v
Step-Inv {t} (exits_thread cur retval) v = thread_exit-Inv cur retval v
Step-Inv {t} (waits cur) v = Tids-Inv (wait-Tids t cur) v
Step-Inv {t} (joins cur thread) v = Tids-Inv (thread_join-Tids t cur thread) v
Step-Inv {t} (wakes_up ch) v = Tids-Inv (wakeup1-Tids ch t) v
Step-Inv {t} (kills pid) v = Tids-Inv (kill-Tids t pid) v
Step-Inv {t} (yields cur) v = Tids-Inv (put-Tids t cur _ (inl (refl, refl))) v
Step-Inv {t} (sleeps cur ch) v = Tids-Inv (put-Tids t cur _ (inl (refl, refl))) v
Step-Inv {t} (wakes cur) v = Tids-Inv (put-Tids t cur _ (inl (refl, refl))) v
Step-Inv {t} (switches i) v = Tids-Inv (put-Tids t i _ (inl (refl, refl))) v

boot-Inv : Inv boot
boot-Inv = record {
  some_next = omega arith;
  below = λ i. rw (get_or-replicate nproc i zero_proc) (omega arith);
  unique = λ i j nonzero e. absurd (nonzero (ap (λ p. p.tid) (get_or-replicate nproc i zero_proc)));
}

-- However the parts of thread_create, fork and the other functions interleave: all thread ids are below
-- `nexttid`, and no two slots have the same id other than 0, as long as fewer than 2 ^ 32 - 1 threads
-- are created and no two of the updates of `nexttid` and `nextpid` by thread_create, for which it
-- takes no lock, overlap.
pub Reach-Inv_ids : {t : PTable} → Reach t → Inv t
Reach-Inv_ids booted = boot-Inv
Reach-Inv_ids (later r s) = Step-Inv s (Reach-Inv_ids r)
