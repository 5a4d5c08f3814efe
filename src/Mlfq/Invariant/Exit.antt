-- ===== src/Mlfq/Invariant/Exit.antt =====
-- `exit` and `wait` of proc_MLFQ.c keep the invariant.
use hyu_ele3021_os.Base.{
  ℕ, zero, suc, ◌+◌, ◌<◌, ◌≡◌, refl, Bool, true, false, List, [], ◌∷◌, arith, if◌then◌else◌, ◌&&◌,
  length, get_or, get_or-set, Bool-cases, inl, inr, some, not, ◌||◌, ◌⊎◌,
}
use hyu_ele3021_os.Mlfq.{
  Proc, PTable, running, zero_proc, proc_at, put_proc, nproc, Chan, is_slot, proc_chan, is_zombie,
}
use hyu_ele3021_os.Mlfq.Queue.{wake, wakeup1}
use hyu_ele3021_os.Mlfq.Waiting.{reparent, exit, Scan, scan, found, havekids, wait, chan_of}
use hyu_ele3021_os.Mlfq.Invariant.{Inv}
use hyu_ele3021_os.Mlfq.Invariant.Slot.{put_proc-Inv}
use hyu_ele3021_os.Mlfq.Invariant.Steps.{sleep-Inv}
use hyu_ele3021_os.Mlfq.Invariant.Loops.{wakeup1-Inv}

-- `wakeup1` leaves a running process running.
wake-running :
    (ch : Chan) (ps : List Proc) (np : List ℕ) (i : ℕ)
    → (get_or ps i zero_proc).state ≡ running
    → (get_or (wake ch ps np).0 i zero_proc).state ≡ running
unfolding wake
wake-running ch [] np i e = e
wake-running ch (p ∷ ps) np zero e = ground arith
wake-running ch (p ∷ ps) np (suc i) e = wake-running ch ps _ i e

wakeup1-running :
    (ch : Chan) (t : PTable) (i : ℕ)
    → (proc_at t i).state ≡ running
    → (proc_at (wakeup1 ch t) i).state ≡ running
unfolding wakeup1
wakeup1-running ch t i e = wake-running ch t.proc t.numproc i e

-- What the loop that hands children over to `init` keeps, for a process `cur` that runs.
record Keeps (k cur : ℕ) (t : PTable) : Type 0 where
  inv : Inv k t
  runs : (proc_at t cur).state ≡ running

wakeup1-Keeps : {k cur : ℕ} {t : PTable} (ch : Chan) → Keeps k cur t → Keeps k cur (wakeup1 ch t)
wakeup1-Keeps {cur} {t} ch s = record {
  inv = wakeup1-Inv ch s.inv;
  runs = wakeup1-running ch t cur s.runs;
}

parent-Keeps :
    {k cur : ℕ} {t : PTable} (i init : ℕ)
    → i < nproc
    → Keeps k cur t
    → Keeps k cur (put_proc t i (record (proc_at t i) { parent = some init }))
parent-Keeps {cur} {t} i init h s = record {
  inv = put_proc-Inv s.inv i _ h (s.inv.levels i) (λ l. refl);
  runs = ground (
    arith,
    s.runs,
    get_or-set t.proc i cur (record (proc_at t i) { parent = some init }) zero_proc,
    s.inv.size,
  );
}

reparent-Keeps :
    (n i cur init : ℕ) {k : ℕ} (t : PTable)
    → i + n ≡ nproc
    → Keeps k cur t
    → Keeps k cur (reparent n i cur init t)
unfolding reparent
reparent-Keeps zero i cur init t e s = s
reparent-Keeps (suc n) i cur init {k} t e s =
    reparent-Keeps n (i + 1) cur init _ (omega arith)
      (step (is_slot (proc_at t i).parent cur) (is_zombie (proc_at t i).state))
  where
    moved : PTable
    moved = put_proc t i (record (proc_at t i) { parent = some init })

    step :
        (a b : Bool)
        → Keeps k cur (if a then (if b then wakeup1 (proc_chan init) moved else moved) else t)
    step false b = s
    step true false = parent-Keeps i init (omega arith) s
    step true true = wakeup1-Keeps (proc_chan init) (parent-Keeps i init (omega arith) s)

-- `exit` of a process that runs.
pub exit-Inv :
    {k : ℕ} {t : PTable} (init cur : ℕ)
    → Inv k t
    → cur < nproc
    → (proc_at t cur).state ≡ running
    → Inv k (exit init t cur)
unfolding exit
exit-Inv {t} init cur v h runs =
    let ch = chan_of (proc_at t cur).parent in
    let s =
      reparent-Keeps nproc 0 cur init (wakeup1 ch t) refl
        (wakeup1-Keeps ch (record { inv = v; runs = runs })) in
    put_proc-Inv s.inv cur _ h (s.inv.levels cur) (λ l. ground (arith, s.runs))

-- What a pass of `wait` finds is a zombie child in the table.
pub scan-found :
    (cur : ℕ) (ps : List Proc) (i : ℕ) (kids : Bool) (j : ℕ)
    → scan cur ps i kids ≡ found j
    → (m : ℕ) × (j ≡ i + m)
      × (m < length ps)
      × (is_slot (get_or ps m zero_proc).parent cur ≡ true)
      × (is_zombie (get_or ps m zero_proc).state ≡ true)
unfolding scan
scan-found cur [] i kids j e = absurd (cc)
scan-found cur (p ∷ ps) i kids j e = elim (Bool-cases (is_slot p.parent cur && is_zombie p.state)) [
  | inl hit ↦ (0, ground arith, omega arith, ground arith, ground arith)
  | inr miss ↦
      let (m, place, lt, c, z) =
        scan-found cur ps (i + 1) (kids || is_slot p.parent cur) j (rw miss at e) in
      (suc m, omega arith, omega arith, c, z)
]

Scan-cases : (s : Scan) → ((j : ℕ) × (s ≡ found j)) ⊎ ((kids : Bool) × (s ≡ havekids kids))
Scan-cases (found j) = inl (j, refl)
Scan-cases (havekids kids) = inr (kids, refl)

pub wait-Inv :
    {k : ℕ} {t : PTable} (cur : ℕ)
    → Inv k t
    → cur < nproc
    → (proc_at t cur).state ≡ running
    → Inv k (wait t cur).0
unfolding wait
wait-Inv {t} cur v h runs = elim (Scan-cases (scan cur t.proc 0 false)) [
  | inl (j, e) ↦
      let (m, place, lt, _, z) = scan-found cur t.proc 0 false j e in
      let same : m ≡ j = omega arith in
      let zombie : is_zombie (proc_at t j).state ≡ true = rw same at z in
      rw (e, wait) (put_proc-Inv v j _ (omega (arith, v.size)) (v.levels j) (λ l. ground arith))
  | inr (kids, e) ↦ elim (Bool-cases (not kids || (proc_at t cur).killed)) [
    | inl stop ↦ rw (e, wait, stop) v
    | inr more ↦ rw (e, wait, more) (sleep-Inv v cur h (proc_chan cur) (ground arith))
  ]
]
