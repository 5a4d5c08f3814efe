-- ===== src/Mlfq/Degrade.antt =====
-- Time slices: what a tick does to the running process, and when `degrade` panics.
use hyu_ele3021_os.Base.{
  ℕ, zero, suc, ◌+◌, ◌-◌, ◌^◌, ◌<◌, ◌≤◌, ◌≡◌, refl, ap, ◌∙◌, true, false, Option, none, some, arith,
  ◌==◌, if◌then◌else◌, Bool-cases, inl, inr, length, get_or, set, length-set, get_or-set_self,
}
use hyu_ele3021_os.Base.Words.{inc32, at_least}
use hyu_ele3021_os.Mlfq.{Proc, PTable, zero_proc, proc_at, put_proc, nproc, is_slot}
use hyu_ele3021_os.Mlfq.Queue.{quantum, expire, degrade, rst, yield}
use hyu_ele3021_os.Mlfq.Scheduler.{dispatch}

-- Level and used time of a slot after a tick, by its level and used time before.
abbrev pub next_slice : ℕ → ℕ × ℕ → ℕ × ℕ
next_slice k (l, ran) =
    if at_least (quantum l) (inc32 ran)
    then (if l == k - 1 then (l, 2 ^ 32 - 1) else (l + 1, 0))
    else (l, inc32 ran)

abbrev pub slice : PTable → ℕ → ℕ × ℕ
slice t i = ((proc_at t i).level, (proc_at t i).extime)

-- A process that was switched to is ticked once and then gives up the CPU.
pub run_tick : ℕ → PTable → ℕ → Option PTable
run_tick k t i = elim (degrade k (dispatch t i) (some i)) [
  | none ↦ none
  | some t' ↦ some (yield t' i)
]

-- The process table has all slots and heads for all levels.
pub record Shape (k : ℕ) (t : PTable) : Type 0 where
  pub size : length t.proc ≡ nproc
  pub head_count : length t.heads ≡ k

module _ {k : ℕ} {t : PTable} (sh : Shape k t) (i : ℕ) (h : i < nproc) where
  slot-set : (q : Proc) → get_or (set t.proc i q) i zero_proc ≡ q
  slot-set q = get_or-set_self t.proc i q zero_proc (omega (arith, sh.size))

  dispatch-Shape : Shape k (dispatch t i)
  unfolding dispatch
  dispatch-Shape = record {
    size = length-set t.proc i _ ∙ sh.size;
    head_count = length-set t.heads _ _ ∙ sh.head_count;
  }

  slice-dispatch : slice (dispatch t i) i ≡ slice t i
  unfolding dispatch
  slice-dispatch = ap (λ (p : Proc). (p.level, p.extime)) (slot-set _)

  head-dispatch :
      (proc_at t i).level < k
      → get_or (dispatch t i).heads (proc_at (dispatch t i) i).level none ≡ some i
  unfolding dispatch
  head-dispatch level =
      ap (λ (p : Proc). get_or (set t.heads (proc_at t i).level (some i)) p.level none) (slot-set _)
      ∙ get_or-set_self t.heads (proc_at t i).level (some i) none (omega (arith, sh.head_count))

  yield-Shape : Shape k (yield t i)
  unfolding yield
  yield-Shape = record { size = length-set t.proc i _ ∙ sh.size; head_count = sh.head_count }

  slice-yield : slice (yield t i) i ≡ slice t i
  unfolding yield
  slice-yield = ap (λ (p : Proc). (p.level, p.extime)) (slot-set _)

  expire-Shape : Shape k (expire k t i)
  unfolding expire
  expire-Shape = elim (Bool-cases ((proc_at t i).level == k - 1)) [
    | inl last ↦ rw last (record {
      size = length-set t.proc i _ ∙ sh.size;
      head_count = length-set t.heads _ _ ∙ sh.head_count;
    })
    | inr inner ↦ rw inner (record {
      size = length-set t.proc i _ ∙ sh.size;
      head_count = length-set t.heads _ _ ∙ sh.head_count;
    })
  ]

  slice-expire : slice (expire k t i) i ≡ (
      if (proc_at t i).level == k - 1
      then ((proc_at t i).level, 2 ^ 32 - 1)
      else ((proc_at t i).level + 1, 0))
  unfolding expire
  slice-expire = elim (Bool-cases ((proc_at t i).level == k - 1)) [
    | inl last ↦ rw last (ap (λ (p : Proc). (p.level, p.extime)) (slot-set _))
    | inr inner ↦ rw inner (ap (λ (p : Proc). (p.level, p.extime)) (slot-set _))
  ]

  -- A tick of a process that heads its level.
  degrade-slice :
      get_or t.heads (proc_at t i).level none ≡ some i
      → (t' : PTable) × (degrade k t (some i) ≡ some t')
        × (slice t' i ≡ next_slice k (slice t i))
        × Shape k t'
  unfolding degrade
  degrade-slice head =
      let p = proc_at t i in
      let own : is_slot (get_or t.heads p.level none) i ≡ true = ground arith in
      elim (Bool-cases (at_least (quantum p.level) (inc32 p.extime))) [
        | inl up ↦ (expire k t i, rw (own, up) refl, rw up slice-expire, expire-Shape)
        | inr on ↦ (
          put_proc t i (record p { extime = inc32 p.extime }),
          rw (own, on) refl,
          rw on (ap (λ (q : Proc). (q.level, q.extime)) (slot-set _)),
          record { size = length-set t.proc i _ ∙ sh.size; head_count = sh.head_count },
        )
      ]

-- A process that was just switched to never makes `degrade` panic; its tick counts one unit of the
-- quantum `4 * level + 2` of its level and, when that is used up, sends it one level down with its
-- time cleared, or leaves it in the last level with time -1.
pub run_tick-slice :
    {k : ℕ} {t : PTable} (i : ℕ)
    → Shape k t
    → i < nproc
    → (proc_at t i).level < k
    → (t' : PTable) × (run_tick k t i ≡ some t')
      × (slice t' i ≡ next_slice k (slice t i))
      × Shape k t'
unfolding run_tick
run_tick-slice {k} {t} i sh h level =
    let sd = dispatch-Shape sh i h in
    let (t1, e, s, sh1) = degrade-slice sd i h (head-dispatch sh i h level) in
    (
      yield t1 i,
      rw (e, run_tick) refl,
      slice-yield sh1 i h ∙ s ∙ ap (next_slice k) (slice-dispatch sh i h),
      yield-Shape sh1 i h,
    )

-- `n` ticks in a row, each after a switch to the process.
pub run_ticks : ℕ → ℕ → PTable → ℕ → Option PTable
run_ticks zero k t i = some t
run_ticks (suc n) k t i = elim (run_tick k t i) [ none ↦ none | some t' ↦ run_ticks n k t' i ]

-- One tick before the quantum is used up.
run_tick-early :
    {k : ℕ} {t : PTable} (i : ℕ)
    → Shape k t
    → i < nproc
    → (proc_at t i).level < k
    → k < 2 ^ 20
    → (proc_at t i).extime + 1 < quantum (proc_at t i).level
    → (t' : PTable) × (run_tick k t i ≡ some t')
      × (slice t' i ≡ ((proc_at t i).level, (proc_at t i).extime + 1))
      × Shape k t'
run_tick-early {k} {t} i sh h level small early =
    let (t1, e, s, sh1) = run_tick-slice i sh h level in
    let on : at_least (quantum (proc_at t i).level) (inc32 (proc_at t i).extime) ≡ false =
      ground arith in
    let next : inc32 (proc_at t i).extime ≡ (proc_at t i).extime + 1 = omega arith in
    (t1, e, s ∙ rw on refl ∙ ap (λ n. ((proc_at t i).level, n)) next, sh1)

-- Some ticks, fewer than the quantum has left.
run_ticks-early :
    (j : ℕ) {k : ℕ} {t : PTable} (i ran : ℕ)
    → Shape k t
    → i < nproc
    → (proc_at t i).level < k
    → k < 2 ^ 20
    → (proc_at t i).extime ≡ ran
    → ran + j < quantum (proc_at t i).level
    → (t' : PTable) × (run_ticks j k t i ≡ some t') × (slice t' i ≡ ((proc_at t i).level, ran + j))
unfolding run_ticks
run_ticks-early zero {k} {t} i ran sh h level small used early =
    let same : (proc_at t i).extime ≡ ran + 0 = omega arith in
    (t, refl, ap (λ n. ((proc_at t i).level, n)) same)
run_ticks-early (suc j) {k} {t} i ran sh h level small used early =
    let (t1, e, s, sh1) = run_tick-early i sh h level small (omega arith) in
    let same_level : (proc_at t1 i).level ≡ (proc_at t i).level = ap (λ (p : ℕ × ℕ). p.0) s in
    let one_more : (proc_at t1 i).extime ≡ (proc_at t i).extime + 1 = ap (λ (p : ℕ × ℕ). p.1) s in
    let (t', e', s') =
      run_ticks-early j i (ran + 1) sh1 h (omega arith) small (omega arith) (omega arith) in
    let total : ran + 1 + j ≡ ran + suc j = omega arith in
    (t', rw (e, run_ticks) e', s' ∙ rw (same_level, total) refl)

-- The rest of the quantum.
run_ticks-full :
    (n : ℕ) {k : ℕ} {t : PTable} (i ran : ℕ)
    → Shape k t
    → i < nproc
    → (proc_at t i).level < k
    → k < 2 ^ 20
    → (proc_at t i).extime ≡ ran
    → ran + suc n ≡ quantum (proc_at t i).level
    → (t' : PTable) × (run_ticks (suc n) k t i ≡ some t')
      × (slice t' i ≡ (
          if (proc_at t i).level == k - 1
          then ((proc_at t i).level, 2 ^ 32 - 1)
          else ((proc_at t i).level + 1, 0)))
unfolding run_ticks
run_ticks-full zero {k} {t} i ran sh h level small used last =
    let (t1, e, s, sh1) = run_tick-slice i sh h level in
    let up : at_least (quantum (proc_at t i).level) (inc32 (proc_at t i).extime) ≡ true =
      ground arith in
    (t1, rw (e, run_ticks) refl, s ∙ rw up refl)
run_ticks-full (suc n) {k} {t} i ran sh h level small used last =
    let (t1, e, s, sh1) = run_tick-early i sh h level small (omega arith) in
    let same_level : (proc_at t1 i).level ≡ (proc_at t i).level = ap (λ (p : ℕ × ℕ). p.0) s in
    let one_more : (proc_at t1 i).extime ≡ (proc_at t i).extime + 1 = ap (λ (p : ℕ × ℕ). p.1) s in
    let (t', e', s') =
      run_ticks-full n i (ran + 1) sh1 h (omega arith) small (omega arith) (omega arith) in
    (t', rw (e, run_ticks) e', s' ∙ rw same_level refl)

-- In a table with all its slots and heads and fewer than 2 ^ 20 levels, a process that has used `ran`
-- units of its quantum and has `suc n` left: after any `j` of its next
-- `n` ticks, each after a switch to it, it is still in its level with `ran + j` units used, and the
-- tick after those `n` sends it to the next level with a new quantum, or leaves it in the last level
-- with time -1.
pub run_ticks-quantum :
    (n j : ℕ) {k : ℕ} {t : PTable} (i ran : ℕ)
    → Shape k t
    → i < nproc
    → (proc_at t i).level < k
    → k < 2 ^ 20
    → (proc_at t i).extime ≡ ran
    → ran + suc n ≡ quantum (proc_at t i).level
    → j ≤ n
    → ((t' : PTable) × (run_ticks j k t i ≡ some t')
        × (slice t' i ≡ ((proc_at t i).level, ran + j)))
      × ((t' : PTable) × (run_ticks (suc n) k t i ≡ some t')
          × (slice t' i ≡ (
              if (proc_at t i).level == k - 1
              then ((proc_at t i).level, 2 ^ 32 - 1)
              else ((proc_at t i).level + 1, 0))))
run_ticks-quantum n j i ran sh h level small used last le = (
  run_ticks-early j i ran sh h level small used (omega arith),
  run_ticks-full n i ran sh h level small used last,
)

-- `rst` of a process that does not head level 0 leaves it so that the next tick panics.
pub degrade-rst :
    (k : ℕ) (t : PTable) (cur : ℕ)
    → cur < length t.proc
    → is_slot (get_or t.heads 0 none) cur ≡ false
    → degrade k (rst t cur) (some cur) ≡ none
unfolding degrade rst
degrade-rst k t cur h other =
    let top : (proc_at (rst t cur) cur).level ≡ 0 =
      ap (λ (p : Proc). p.level) (get_or-set_self t.proc cur _ zero_proc h) in
    rw top (rw other refl)
