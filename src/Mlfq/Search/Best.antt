-- ===== src/Mlfq/Search/Best.antt =====
-- Whatever slot the scheduler's search chooses holds a best process of the table.
use hyu_ele3021_os.Base.{
  ℕ, zero, suc, ◌+◌, ◌≤◌, ◌<◌, ◌≡◌, subst, true, false, arith, get_or, Bool-cases, inl, inr, none,
  some, Option-cases, ltb,
}
use native.Mathlib.Nat.{le_refl}
use native.Mathlib.Decide.{ℕ_discrete}
use hyu_ele3021_os.Base.Words.{positive, at_least}
use hyu_ele3021_os.Mlfq.{PTable, proc_at, nproc, is_runnable, find_from}
use hyu_ele3021_os.Mlfq.Scheduler.{busy_below, eligible, beats, rival, chosen, search_from}
use hyu_ele3021_os.Mlfq.Count.{count-le-length, weights-le-count}
use hyu_ele3021_os.Mlfq.Invariant.{Inv}
use hyu_ele3021_os.Mlfq.Search.{find_from-none, level-le}

-- Slot `j` is runnable; no runnable process is in a level before its own, and none in its level has
-- a higher priority.
pub record Best (t : PTable) (j : ℕ) : Type 0 where
  pub in_table : j < nproc
  pub can_run : is_runnable (proc_at t j).state ≡ true
  pub top_level :
      (i : ℕ)
      → i < nproc
      → is_runnable (proc_at t i).state ≡ true
      → (proc_at t j).level ≤ (proc_at t i).level
  pub top_priority :
      (i : ℕ)
      → i < nproc
      → is_runnable (proc_at t i).state ≡ true
      → (proc_at t i).level ≡ (proc_at t j).level
      → (proc_at t i).priority ≤ (proc_at t j).priority

module _ {k : ℕ} {t : PTable} (v : Inv k t) where
  -- The test on `p1` leaves no process of the level with a higher priority.
  no_rival :
      (level j i : ℕ)
      → rival t level j ≡ none
      → j < nproc
      → eligible level (proc_at t j) ≡ true
      → i < nproc
      → eligible level (proc_at t i) ≡ true
      → (proc_at t i).priority ≤ (proc_at t j).priority
  no_rival level j i e hj ej hi ei = elim (Bool-cases (at_least 2 (get_or t.numproc level 0))) [
    | inl several ↦
        let nobody : find_from (beats level (proc_at t j).priority) t.proc 0 ≡ none =
          rw several at e in
        ground (
          arith,
          find_from-none (beats level (proc_at t j).priority) t.proc 0 nobody i
              (omega (arith, v.size)),
        )
    | inr one ↦ elim (ℕ_discrete j i) [
      | yes same ↦ subst (λ n. (proc_at t n).priority ≤ (proc_at t j).priority) same (le_refl _)
      | no other ↦
          let two =
            weights-le-count level t.proc j i (omega (arith, v.size)) (omega (arith, v.size))
              other in
          let own : level < k = ground (arith, v.levels j) in
          absurd (ground (arith, v.counted level own, count-le-length level t.proc, v.size))
    ]
  ]

  best :
      (level j : ℕ)
      → busy_below t.numproc level ≡ false
      → rival t level j ≡ none
      → j < nproc
      → eligible level (proc_at t j) ≡ true
      → Best t j
  best level j quiet e h el = record {
    in_table = h;
    can_run = ground arith;
    top_level = λ i hi r. ground (arith, level-le v level quiet i hi r);
    top_priority = λ i hi r same. no_rival level j i e h el hi (ground arith);
  }

  -- From any level and slot where the search stands: if it chooses a slot, then a best one.
  pub search-Best :
      (fuel level i : ℕ) {j : ℕ} → search_from fuel k t level i ≡ some (chosen j) → Best t j
  unfolding search_from
  search-Best zero level i e = absurd (cc)
  search-Best (suc fuel) level i {j} e = elim (Bool-cases (ltb i nproc)) [
    | inr out ↦ elim (Bool-cases (positive (get_or t.numproc level 0))) [
      | inl more ↦ search-Best fuel level 0 (rw (out, more) at e)
      | inr done ↦ elim (Bool-cases (ltb (level + 1) k)) [
        | inl next ↦ search-Best fuel (level + 1) 0 (rw (out, done, next) at e)
        | inr last ↦ absurd (cc (rw (out, done, last) at e))
      ]
    ]
    | inl inside ↦ elim (Bool-cases (busy_below t.numproc level)) [
      | inl busy ↦ search-Best fuel 0 0 (rw (inside, busy) at e)
      | inr quiet ↦ elim (Bool-cases (eligible level (proc_at t i))) [
        | inr skip ↦ search-Best fuel level (i + 1) (rw (inside, quiet, skip) at e)
        | inl el ↦ elim (Option-cases (rival t level i)) [
          | inl alone ↦
              let same : i ≡ j = cc (rw (inside, quiet, el, alone) at e) in
              subst (Best t) same (best level i quiet alone (ground arith) el)
          | inr (r, beaten) ↦ elim (Bool-cases (ltb r i)) [
            | inl back ↦ search-Best fuel level 0 (rw (inside, quiet, el, beaten, back) at e)
            | inr on ↦ search-Best fuel level (i + 1) (rw (inside, quiet, el, beaten, on) at e)
          ]
        ]
      ]
    ]
  ]
