-- ===== src/Thread/Join.antt =====
-- What `thread_join` of proc.c gets from `thread_exit`.
use hyu_ele3021_os.Base.{
  ℕ, zero, suc, ◌+◌, ◌<◌, ◌≡◌, refl, sym, ◌∙◌, ap, Bool, true, false, ◌&&◌, ◌||◌, List, [], ◌∷◌,
  arith, ◌==◌, get_or, length, length-set, get_or-set_self, Bool-cases, inl, inr,
}
use hyu_ele3021_os.Mlfq.{is_zombie, zombie}
use hyu_ele3021_os.Mlfq.Waiting.{found, chan_of}
use hyu_ele3021_os.Thread.{Proc, PTable, zero_proc, proc_at, put_proc, wakeup1, wake}
use hyu_ele3021_os.Thread.Ending.{thread_clear, thread_exit}
use hyu_ele3021_os.Thread.Waiting.{scan, thread_join, joined}
use hyu_ele3021_os.Thread.Tids.{Tids, wakeup1-Tids, wakeup1-at, wake-tid}

-- A pass stops at a zombie that passes the test, at the latest at a given one.
scan-found :
    (test : Proc → Bool) (ps : List Proc) (n i : ℕ) (seen : Bool)
    → test (get_or ps i zero_proc) ≡ true
    → is_zombie (get_or ps i zero_proc).state ≡ true
    → (k : ℕ) × (scan test ps n seen ≡ found (n + k)) × (test (get_or ps k zero_proc) ≡ true)
unfolding scan
scan-found test [] n i seen e z = absurd (cc)
scan-found test (p ∷ ps) n zero seen e z =
    let hit : (test p && is_zombie p.state) ≡ true = ground arith in
    (0, rw hit (ap found (omega arith)), e)
scan-found test (p ∷ ps) n (suc i) seen e z = elim (Bool-cases (test p && is_zombie p.state)) [
  | inl hit ↦ (0, rw hit (ap found (omega arith)), ground arith)
  | inr miss ↦
      let (k, run, pass) = scan-found test ps (n + 1) i (seen || test p) e z in
      (suc k, rw miss (run ∙ ap found (omega arith)), pass)
]

-- The slots other than `i` have other ids than slot `i`.
abbrev pub OwnId : PTable → ℕ → Type 0
OwnId t i = (k : ℕ) → (proc_at t k).tid ≡ (proc_at t i).tid → k ≡ i

-- `thread_join(d)` of a zombie that is the only slot with the id `d` gives that thread's return value,
-- and clears its slot and nothing else, whatever other slots hold.
pub thread_join-zombie :
    (t : PTable) (cur i d : ℕ)
    → OwnId t i
    → (proc_at t i).tid ≡ d
    → is_zombie (proc_at t i).state ≡ true
    → thread_join t cur d ≡ (thread_clear t i, joined (proc_at t i).retval)
unfolding thread_join
thread_join-zombie t cur i d own e z =
    let (k, run, pass) = scan-found (λ p. p.tid == d) t.proc 0 i false (ground arith) z in
    let hit : (proc_at t k).tid ≡ d = ground arith in
    let same : k ≡ i = own k (hit ∙ sym e) in
    let at : 0 + k ≡ i = omega arith in rw (run ∙ ap found at, thread_join) refl

exited-at :
    (t : PTable) (i rv : ℕ)
    → i < length t.proc
    → ((proc_at (thread_exit t i rv) i).tid ≡ (proc_at t i).tid)
      × ((proc_at (thread_exit t i rv) i).retval ≡ rv)
      × (is_zombie (proc_at (thread_exit t i rv) i).state ≡ true)
unfolding thread_exit
exited-at t i rv h =
    let e =
      get_or-set_self t2.proc i (record (proc_at t2 i) { state = zombie }) zero_proc
        (omega (arith, size)) in
    (ap (λ p. p.tid) e ∙ same, ap (λ p. p.retval) e ∙ value, ap (λ p. is_zombie p.state) e)
  where
    t1 : PTable
    t1 = put_proc t i (record (proc_at t i) { retval = rv })

    t2 : PTable
    t2 = wakeup1 (chan_of (proc_at t1 i).main) t1

    w : Tids t1 t2
    w = wakeup1-Tids (chan_of (proc_at t1 i).main) t1

    size : length t2.proc ≡ length t.proc
    size = w.size ∙ length-set t.proc i _

    here : proc_at t1 i ≡ record (proc_at t i) { retval = rv }
    here = get_or-set_self t.proc i _ zero_proc h

    woken : proc_at t2 i ≡ wake (chan_of (proc_at t1 i).main) (proc_at t1 i)
    woken = wakeup1-at _ t1 i

    same : (proc_at t2 i).tid ≡ (proc_at t i).tid
    same = ap (λ p. p.tid) woken ∙ (wake-tid _ (proc_at t1 i)).0 ∙ ap (λ p. p.tid) here

    value : (proc_at t2 i).retval ≡ rv
    value = ap (λ p. p.retval) woken ∙ (wake-tid _ (proc_at t1 i)).1 ∙ ap (λ p. p.retval) here

-- A thread that has called `thread_exit(rv)` and is then joined gives `rv`: whatever steps `t'` is
-- after, as long as the slot is as `thread_exit` left it and is the only one with its id.
pub thread_exit-join :
    (t t' : PTable) (cur i rv : ℕ)
    → i < length t.proc
    → proc_at t' i ≡ proc_at (thread_exit t i rv) i
    → OwnId t' i
    → (thread_join t' cur (proc_at t i).tid).1 ≡ joined rv
thread_exit-join t t' cur i rv h left own =
    let (id, value, dead) = exited-at t i rv h in
    ap (λ p. p.1)
      (thread_join-zombie t' cur i (proc_at t i).tid own (ap (λ p. p.tid) left ∙ id)
        (ap (λ p. is_zombie p.state) left ∙ dead))
    ∙ ap joined (ap (λ p. p.retval) left ∙ value)
