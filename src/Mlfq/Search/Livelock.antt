-- ===== src/Mlfq/Search/Livelock.antt =====
-- When the search of the MLFQ scheduler never ends.
use hyu_ele3021_os.Base.{
  ℕ, zero, suc, ◌+◌, ◌≤◌, ◌<◌, ◌≡◌, ◌≢◌, refl, sym, subst, Bool, true, false, List, [], ◌∷◌, arith,
  length, get_or, Bool-cases, inl, inr, none, some, ltb, ◌⊎◌,
}
use native.Mathlib.Decide.{ℕ_discrete}
use hyu_ele3021_os.Base.Words.{positive, at_least}
use hyu_ele3021_os.Mlfq.{Proc, PTable, zero_proc, proc_at, nproc, find_from}
use hyu_ele3021_os.Mlfq.Scheduler.{busy_below, eligible, beats, rival, search_from}
use hyu_ele3021_os.Mlfq.Count.{count-le-length, weights-le-count}
use hyu_ele3021_os.Mlfq.Invariant.{Inv}
use hyu_ele3021_os.Mlfq.Search.{none-runnable}

-- Three runnable slots of the first busy level `l`, in order, with the middle one below the first;
-- the last is above every slot up to the middle one.
pub record Dip (k : ℕ) (t : PTable) (l a b c : ℕ) : Type 0 where
  pub in_levels : l < k
  pub quiet : busy_below t.numproc l ≡ false
  pub first : a < b
  pub second : b < c
  pub in_table : c < nproc
  pub runs_a : eligible l (proc_at t a) ≡ true
  pub runs_b : eligible l (proc_at t b) ≡ true
  pub runs_c : eligible l (proc_at t c) ≡ true
  pub falls : (proc_at t b).priority < (proc_at t a).priority
  pub tops :
      (i : ℕ)
      → i ≤ b
      → eligible l (proc_at t i) ≡ true
      → (proc_at t i).priority < (proc_at t c).priority

-- A search finds a slot, and none after one that passes.
find_from-hit :
    (test : Proc → Bool) (ps : List Proc) (n a : ℕ)
    → a < length ps
    → test (get_or ps a zero_proc) ≡ true
    → (r : ℕ) × (find_from test ps n ≡ some r) × (r ≤ n + a)
find_from-hit test [] n a h e = absurd (omega arith)
find_from-hit test (p ∷ ps) n zero h e = (n, rw e refl, omega arith)
find_from-hit test (p ∷ ps) n (suc a) h e = elim (Bool-cases (test p)) [
  | inl hit ↦ (n, rw hit refl, omega arith)
  | inr miss ↦
      let (r, found, le) = find_from-hit test ps (n + 1) a (omega arith) e in
      (r, rw miss found, omega arith)
]

busy_below-le : (np : List ℕ) (l m : ℕ) → l ≤ m → busy_below np m ≡ false → busy_below np l ≡ false
busy_below-le np l zero h e = let none_left : l ≡ 0 = omega arith in rw none_left refl
busy_below-le np l (suc m) h e = elim (ℕ_discrete l (suc m)) [
  | yes same ↦ subst (λ n. busy_below np n ≡ false) (sym same) e
  | no other ↦ busy_below-le np l m (omega arith) (ground arith)
]

quiet-level :
    (np : List ℕ) (l m : ℕ) → l < m → busy_below np m ≡ false → positive (get_or np l 0) ≡ false
quiet-level np l m h e =
    let next : busy_below np (suc l) ≡ false = busy_below-le np (suc l) m h e in ground arith

module _ {k : ℕ} {t : PTable} (v : Inv k t) {l a b c : ℕ} (dip : Dip k t l a b c) where
  several : at_least 2 (get_or t.numproc l 0) ≡ true
  several = ground (
    arith,
    v.counted l dip.in_levels,
    count-le-length l t.proc,
    v.size,
    weights-le-count l t.proc a b (omega (arith, v.size, dip.first, dip.second, dip.in_table))
        (omega (arith, v.size, dip.second, dip.in_table)) (omega (arith, dip.first)),
    dip.runs_a,
    dip.runs_b,
  )

  -- Up to the middle slot every eligible one has a rival, and the middle one has it before itself.
  beaten : (i : ℕ) → i ≤ b → eligible l (proc_at t i) ≡ true → (r : ℕ) × (rival t l i ≡ some r)
  beaten i h el =
      let (r, found, _) =
        find_from-hit (beats l (proc_at t i).priority) t.proc 0 c
          (omega (arith, v.size, dip.in_table)) (ground (arith, dip.runs_c, dip.tops i h el)) in
      (r, rw several found)

  beaten_back : (r : ℕ) × (rival t l b ≡ some r) × (r < b)
  beaten_back =
      let (r, found, le) =
        find_from-hit (beats l (proc_at t b).priority) t.proc 0 a
          (omega (arith, v.size, dip.first, dip.second, dip.in_table))
          (ground (arith, dip.runs_a, dip.falls)) in
      (r, rw several found, omega (arith, dip.first))

  -- From any slot of a level before `l`, and from any slot of `l` up to the middle one.
  never :
      (fuel level i : ℕ)
      → (level < l) ⊎ ((level ≡ l) × (i ≤ b))
      → search_from fuel k t level i ≡ none
  unfolding search_from
  never zero level i at = refl
  never (suc fuel) level i (inl before) =
      let quiet = busy_below-le t.numproc level l (omega arith) dip.quiet in
      let done = quiet-level t.numproc level l before dip.quiet in
      let next : ltb (level + 1) k ≡ true = ground (arith, dip.in_levels) in
      let up = never fuel (level + 1) 0 (by_level (level + 1) (omega arith)) in
      let on = never fuel level (i + 1) (inl before) in
      elim (Bool-cases (ltb i nproc)) [
        | inr out ↦ rw (out, done, next) up
        | inl inside ↦
            let skip = none-runnable v level i done (ground arith) in rw (inside, quiet, skip) on
      ]
    where
      by_level : (m : ℕ) → m ≤ l → (m < l) ⊎ ((m ≡ l) × (0 ≤ b))
      by_level m h = elim (ℕ_discrete m l) [
        | yes e ↦ inr (e, omega arith)
        | no e ↦ inl (omega arith)
      ]
  never (suc fuel) level i (inr (same, h)) =
      let inside : ltb i nproc ≡ true = ground (arith, h, dip.second, dip.in_table) in
      let back = never fuel l 0 (inr (refl, omega arith)) in
      let on = λ (apart : i ≢ b). never fuel l (i + 1) (inr (refl, omega arith)) in
      subst (λ m. search_from (suc fuel) k t m i ≡ none) (sym same)
        (elim (Bool-cases (eligible l (proc_at t i))) [
          | inr skip ↦
              let apart : i ≢ b =
                λ e. cc (skip, subst (λ n. eligible l (proc_at t n) ≡ true) (sym e) dip.runs_b) in
              rw (inside, dip.quiet, skip) (on apart)
          | inl el ↦ elim (ℕ_discrete i b) [
            | no apart ↦
                let (r, found) = beaten i h el in
                rw (inside, dip.quiet, el, found)
                  (elim (Bool-cases (ltb r i)) [ inl b1 ↦ rw b1 back | inr b1 ↦ rw b1 (on apart) ])
            | yes mid ↦
                let (r, found, less) = beaten_back in
                let found' : rival t l i ≡ some r =
                  subst (λ n. rival t l n ≡ some r) (sym mid) found in
                let before : ltb r i ≡ true = ground arith in
                rw (inside, dip.quiet, el, found', before) back
          ]
        ])

-- With such a dip a round that starts never switches to a process: the search runs on for ever,
-- with `ptable.lock` held.
pub search-livelock :
    {k : ℕ} {t : PTable} {l a b c : ℕ}
    → Inv k t
    → Dip k t l a b c
    → (fuel : ℕ) → search_from fuel k t 0 0 ≡ none
search-livelock {l} {b} v dip fuel = never v dip fuel 0 0 start
  where
    start : (0 < l) ⊎ ((0 ≡ l) × (0 ≤ b))
    start = elim (ℕ_discrete 0 l) [ yes e ↦ inr (e, omega arith) | no e ↦ inl (omega arith) ]
