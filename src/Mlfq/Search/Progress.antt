-- ===== src/Mlfq/Search/Progress.antt =====
-- When the search of the MLFQ scheduler comes to an end.
use hyu_ele3021_os.Base.{
  ℕ, zero, suc, ◌+◌, ◌-◌, ◌*◌, ◌≤◌, ◌<◌, ◌≡◌, ◌≢◌, refl, sym, subst, true, false, List, [], ◌∷◌,
  arith, length, get_or, Bool-cases, inl, inr, some, Option-cases, ltb, ◌⊎◌,
}
use native.Mathlib.Decide.{ℕ_discrete}
use hyu_ele3021_os.Base.Words.{positive, at_least}
use hyu_ele3021_os.Mlfq.{Proc, PTable, zero_proc, proc_at, nproc, is_runnable}
use hyu_ele3021_os.Mlfq.Scheduler.{
  busy_below, eligible, beats, rival, Found, chosen, idle, search_from,
}
use hyu_ele3021_os.Mlfq.Count.{count}
use hyu_ele3021_os.Mlfq.Invariant.{Inv}
use hyu_ele3021_os.Mlfq.Invariant.Slot.{found-at}
use hyu_ele3021_os.Mlfq.Search.{level-le}
use hyu_ele3021_os.Mlfq.Search.Best.{Best, search-Best}

-- Among three slots in order, runnable and in one level, the middle one is never below the first
-- while the last is above it.
abbrev pub NoDip : PTable → Type 0
NoDip t =
    (l a b c : ℕ)
    → a < b
    → b < c
    → c < nproc
    → eligible l (proc_at t a) ≡ true
    → eligible l (proc_at t b) ≡ true
    → eligible l (proc_at t c) ≡ true
    → (proc_at t b).priority < (proc_at t a).priority
    → (proc_at t c).priority ≤ (proc_at t a).priority

-- The slots before `i` have been passed over: each eligible one loses to a slot from `i` on.
abbrev Passed : PTable → ℕ → ℕ → Type 0
Passed t l i =
    (s : ℕ)
    → s < i
    → eligible l (proc_at t s) ≡ true
    → (c : ℕ) × (i ≤ c)
      × (c < nproc)
      × (eligible l (proc_at t c) ≡ true)
      × ((proc_at t s).priority < (proc_at t c).priority)

count-eq-zero :
    (l : ℕ) (ps : List Proc)
    → ((i : ℕ) → i < length ps → eligible l (get_or ps i zero_proc) ≡ false)
    → count l ps ≡ 0
unfolding count
count-eq-zero l [] h = refl
count-eq-zero l (p ∷ ps) h =
    ground (arith, h 0 (omega arith), count-eq-zero l ps (λ i lt. h (suc i) (omega arith)))

quiet-next :
    (t : PTable) (l : ℕ)
    → busy_below t.numproc l ≡ false
    → positive (get_or t.numproc l 0) ≡ false
    → busy_below t.numproc (l + 1) ≡ false
quiet-next t l below here =
    let next : l + 1 ≡ suc l = omega arith in
    subst (λ n. busy_below t.numproc n ≡ false) (sym next) (ground arith)

-- A rival is an eligible slot of higher priority.
rival-beats :
    (t : PTable) (level i r : ℕ)
    → rival t level i ≡ some r
    → (r < length t.proc) × (beats level (proc_at t i).priority (proc_at t r) ≡ true)
rival-beats t level i r e = elim (Bool-cases (at_least 2 (get_or t.numproc level 0))) [
  | inl several ↦ found-at (beats level (proc_at t i).priority) t (rw several at e)
  | inr one ↦ absurd (cc (rw one at e))
]

module _ {k : ℕ} {t : PTable} (v : Inv k t) (rising : NoDip t) where
  pass_skip : (l i : ℕ) → Passed t l i → eligible l (proc_at t i) ≡ false → Passed t l (i + 1)
  pass_skip l i passed skip s h es = elim (ℕ_discrete s i) [
    | yes same ↦ absurd (cc (skip, subst (λ n. eligible l (proc_at t n) ≡ true) same es))
    | no other ↦
        let (c, from, lt, ec, more) = passed s (omega arith) es in
        let apart : c ≢ i =
          λ same. cc (skip, subst (λ n. eligible l (proc_at t n) ≡ true) same ec) in
        (c, omega arith, lt, ec, more)
  ]

  -- An eligible slot with a rival: the rival comes later, and the pass goes on.
  pass_beaten :
      (l i r : ℕ)
      → i < nproc
      → Passed t l i
      → eligible l (proc_at t i) ≡ true
      → rival t l i ≡ some r
      → (i < r) × Passed t l (i + 1)
  pass_beaten l i r h passed el e = (later, rest)
    where
      in_table : r < nproc
      in_table = omega (arith, (rival-beats t l i r e).0, v.size)

      er : eligible l (proc_at t r) ≡ true
      er = ground (arith, (rival-beats t l i r e).1)

      above : (proc_at t i).priority < (proc_at t r).priority
      above = ground (arith, (rival-beats t l i r e).1)

      not_before : ¬ (r < i)
      not_before before =
          let (c, from, lt, ec, more) = passed r before er in
          let apart : c ≢ i = λ same. omega (
            arith,
            above,
            subst (λ n. (proc_at t r).priority < (proc_at t n).priority) same more,
          ) in
          omega (arith, rising l r i c before (omega arith) lt er el ec above)

      not_same : r ≢ i
      not_same same =
          omega
            (arith, above, subst (λ n. (proc_at t i).priority < (proc_at t n).priority) same above)

      later : i < r
      later = omega (arith, not_before, not_same)

      rest : Passed t l (i + 1)
      rest s hs es = elim (ℕ_discrete s i) [
        | yes same ↦ (
          r,
          omega (arith, later),
          in_table,
          er,
          subst (λ n. (proc_at t n).priority < (proc_at t r).priority) (sym same) above,
        )
        | no other ↦
            let (c, from, lt, ec, more) = passed s (omega arith) es in
            elim (ℕ_discrete c i) [
              | yes here ↦ (
                r,
                omega (arith, later),
                in_table,
                er,
                omega (
                  arith,
                  above,
                  subst (λ n. (proc_at t s).priority < (proc_at t n).priority) here more,
                ),
              )
              | no apart ↦ (c, omega arith, lt, ec, more)
            ]
      ]

  -- A level that has been passed over has no runnable process.
  pass_end : (l : ℕ) → l < k → Passed t l nproc → positive (get_or t.numproc l 0) ≡ false
  pass_end l h passed = ground (arith, v.counted l h, count-eq-zero l t.proc none_left)
    where
      none_left : (i : ℕ) → i < length t.proc → eligible l (proc_at t i) ≡ false
      none_left i lt = elim (Bool-cases (eligible l (proc_at t i))) [
        | inl el ↦
            let (c, from, out, _, _) = passed i (omega (arith, v.size)) el in absurd (omega arith)
        | inr el ↦ el
      ]

  -- `(k - level) * 65` turns are left from the first slot of a level on.
  search_ends :
      (fuel level i : ℕ)
      → level < k
      → i ≤ nproc
      → (k - level) * (nproc + 1) ≤ fuel + i
      → busy_below t.numproc level ≡ false
      → Passed t level i
      → (f : Found) × (search_from fuel k t level i ≡ some f)
  unfolding search_from
  search_ends zero level i h hi enough quiet passed = absurd (omega arith)
  search_ends (suc fuel) level i h hi enough quiet passed = elim (Bool-cases (ltb i nproc)) [
    | inr out ↦
        let last_slot : i ≡ nproc = ground arith in
        let done = pass_end level h (subst (Passed t level) last_slot passed) in
        elim (Bool-cases (ltb (level + 1) k)) [
          | inr last ↦ (idle, rw (out, done, last) refl)
          | inl next ↦
              let (f, e) =
                search_ends fuel (level + 1) 0 (ground arith) (omega arith) (omega arith)
                  (quiet-next t level quiet done) (λ s lt es. absurd (omega arith)) in
              (f, rw (out, done, next) e)
        ]
    | inl inside ↦ elim (Bool-cases (eligible level (proc_at t i))) [
      | inr skip ↦
          let (f, e) =
            search_ends fuel level (i + 1) h (ground arith) (omega arith) quiet
              (pass_skip level i passed skip) in
          (f, rw (inside, quiet, skip) e)
      | inl el ↦ elim (Option-cases (rival t level i)) [
        | inl alone ↦ (chosen i, rw (inside, quiet, el, alone) refl)
        | inr (r, beaten) ↦
            let (later, passed') = pass_beaten level i r (ground arith) passed el beaten in
            let (f, e) =
              search_ends fuel level (i + 1) h (ground arith) (omega arith) quiet passed' in
            let on : ltb r i ≡ false = ground arith in (f, rw (inside, quiet, el, beaten, on) e)
      ]
    ]
  ]

  -- `idle` is the answer only when no process can run.
  search-idle :
      (fuel level i : ℕ)
      → busy_below t.numproc level ≡ false
      → level < k
      → search_from fuel k t level i ≡ some idle
      → busy_below t.numproc k ≡ false
  unfolding search_from
  search-idle zero level i quiet h e = absurd (cc)
  search-idle (suc fuel) level i quiet h e = elim (Bool-cases (ltb i nproc)) [
    | inr out ↦ elim (Bool-cases (positive (get_or t.numproc level 0))) [
      | inl more ↦ search-idle fuel level 0 quiet h (rw (out, more) at e)
      | inr done ↦ elim (Bool-cases (ltb (level + 1) k)) [
        | inl next ↦
            search-idle fuel (level + 1) 0 (quiet-next t level quiet done) (ground arith)
              (rw (out, done, next) at e)
        | inr last ↦
            let all : level + 1 ≡ k = ground arith in
            subst (λ n. busy_below t.numproc n ≡ false) all (quiet-next t level quiet done)
      ]
    ]
    | inl inside ↦ elim (Bool-cases (eligible level (proc_at t i))) [
      | inr skip ↦ search-idle fuel level (i + 1) quiet h (rw (inside, quiet, skip) at e)
      | inl el ↦ elim (Option-cases (rival t level i)) [
        | inl alone ↦ absurd (cc (rw (inside, quiet, el, alone) at e))
        | inr (r, beaten) ↦ elim (Bool-cases (ltb r i)) [
          | inl back ↦ search-idle fuel level 0 quiet h (rw (inside, quiet, el, beaten, back) at e)
          | inr on ↦
              search-idle fuel level (i + 1) quiet h (rw (inside, quiet, el, beaten, on) at e)
        ]
      ]
    ]
  ]

Found-cases : (f : Found) → (f ≡ idle) ⊎ ((j : ℕ) × (f ≡ chosen j))
Found-cases idle = inl refl
Found-cases (chosen j) = inr (j, refl)

-- From the start of a round, in a table with no dip in priority, the search ends within `k * 65`
-- turns of its loops; if any process can run, then with a best one.
pub search-total :
    {k : ℕ} {t : PTable}
    → Inv k t
    → NoDip t
    → ((f : Found) × (search_from (k * (nproc + 1)) k t 0 0 ≡ some f))
      × ((i : ℕ)
          → i < nproc
          → is_runnable (proc_at t i).state ≡ true
          → (j : ℕ) × (search_from (k * (nproc + 1)) k t 0 0 ≡ some (chosen j)) × Best t j)
search-total {k} {t} v rising = (ends, picks)
  where
    ends : (f : Found) × (search_from (k * (nproc + 1)) k t 0 0 ≡ some f)
    ends =
        search_ends v rising (k * (nproc + 1)) 0 0 v.some_level (omega arith) (omega arith) refl
          (λ s lt es. absurd (omega arith))

    picks :
        (i : ℕ)
        → i < nproc
        → is_runnable (proc_at t i).state ≡ true
        → (j : ℕ) × (search_from (k * (nproc + 1)) k t 0 0 ≡ some (chosen j)) × Best t j
    picks i h r = elim (Found-cases ends.0) [
      | inr (j, e) ↦
          let here : search_from (k * (nproc + 1)) k t 0 0 ≡ some (chosen j) = cc (ends.1) in
          (j, here, search-Best v _ 0 0 here)
      | inl e ↦
          let here : search_from (k * (nproc + 1)) k t 0 0 ≡ some idle = cc (ends.1) in
          let past = level-le v k (search-idle v rising _ 0 0 refl v.some_level here) i h r in
          absurd (omega (arith, v.levels i))
    ]
