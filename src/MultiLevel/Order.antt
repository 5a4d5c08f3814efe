-- ===== src/MultiLevel/Order.antt =====
-- What the first-come-first-served loop of proc_multiLevel.c switches to.
use hyu_ele3021_os.Base.{
  ℕ, zero, suc, ◌+◌, ◌≤◌, ◌<◌, ◌≡◌, refl, ◌∙◌, ap, subst, Bool, true, false, Option, none, some,
  List, [], ◌∷◌, arith, ◌==◌, get_or, Bool-cases, ◌⊎◌, inl, inr, ltb, ◌||◌,
}
use mathlib.Core.Option.{some-injective}
use hyu_ele3021_os.Mlfq.{is_runnable}
use hyu_ele3021_os.Thread.{Proc, zero_proc}
use hyu_ele3021_os.MultiLevel.{is_even, Pass, goto_even, picked, fcfs_from, fcfs}

abbrev pub runs : List Proc → ℕ → Bool
runs ps k = is_runnable (get_or ps k zero_proc).state

abbrev pub pid_at : List Proc → ℕ → ℕ
pid_at ps k = (get_or ps k zero_proc).pid

abbrev pub even_at : List Proc → ℕ → Bool
even_at ps k = is_even (get_or ps k zero_proc)

-- Every runnable process has an odd pid that is not below `low`.
abbrev pub AllLater : List Proc → ℕ → Type 0
AllLater ps low = (k : ℕ) → runs ps k ≡ true → (even_at ps k ≡ false) × (low ≤ pid_at ps k)

-- Slot `j` is runnable with an odd pid, the smallest of all runnable processes.
abbrev pub First : List Proc → ℕ → Type 0
First ps j = (runs ps j ≡ true) × (even_at ps j ≡ false) × AllLater ps (pid_at ps j)

-- The results of a pass that has got to slot `i` with `tmp` and `p`.
abbrev Result : List Proc → ℕ → ℕ → Option ℕ → Pass → Type 0
Result ps i tmp p goto_even = (k : ℕ) × (runs ps k ≡ true) × (even_at ps k ≡ true)
Result ps i tmp p (picked r) =
    ((r ≡ p) × AllLater ps tmp × (tmp ≡ 0 → (k : ℕ) → runs ps k ≡ false))
    ⊎ ((k : ℕ) × (r ≡ some (i + k)) × First ps k × ((tmp == 0 || ltb (pid_at ps k) tmp) ≡ true))

-- What holds of the first slot and of those behind it holds of all.
behind :
    (q : Proc) (qs : List Proc) (low : ℕ)
    → (is_runnable q.state ≡ true → (is_even q ≡ false) × (low ≤ q.pid))
    → AllLater qs low
    → AllLater (q ∷ qs) low
behind q qs low first rest zero e = first e
behind q qs low first rest (suc k) e = rest k e

none_behind :
    (q : Proc) (qs : List Proc)
    → is_runnable q.state ≡ false
    → ((k : ℕ) → runs qs k ≡ false)
    → (k : ℕ) → runs (q ∷ qs) k ≡ false
none_behind q qs idle rest zero = idle
none_behind q qs idle rest (suc k) = rest k

-- The first slot is passed over, or is not better than `tmp`.
skip-Result :
    (q : Proc) (qs : List Proc) (i tmp : ℕ) (p : Option ℕ) (x : Pass)
    → (is_runnable q.state ≡ true → (is_even q ≡ false) × ((tmp == 0 || ltb q.pid tmp) ≡ false))
    → Result qs (i + 1) tmp p x
    → Result (q ∷ qs) i tmp p x
skip-Result q qs i tmp p goto_even passed (k, run, even) = (suc k, run, even)
skip-Result q qs i tmp p (picked r) passed (inl (same, later, empty)) = inl (
  same,
  behind q qs tmp (λ e. ((passed e).0, ground (arith, (passed e).1))) later,
  λ z. none_behind q qs (idle z) (empty z),
)
  where
    idle : tmp ≡ 0 → is_runnable q.state ≡ false
    idle z = elim (Bool-cases (is_runnable q.state)) [
      | inr e ↦ e
      | inl e ↦ absurd (ground (arith, (passed e).1))
    ]
skip-Result q qs i tmp p (picked r) passed (inr (k, at, (run, odd, least), better)) =
    let low : is_runnable q.state ≡ true → pid_at qs k ≤ q.pid =
      λ e. ground (arith, (passed e).1) in
    inr (
      suc k,
      at ∙ ap some (omega arith),
      (run, odd, behind q qs (pid_at qs k) (λ e. ((passed e).0, low e)) least),
      better,
    )

-- The first slot is better than `tmp`, and is taken.
take-Result :
    (q : Proc) (qs : List Proc) (i tmp : ℕ) (p : Option ℕ) (x : Pass)
    → is_runnable q.state ≡ true
    → is_even q ≡ false
    → (tmp == 0 || ltb q.pid tmp) ≡ true
    → Result qs (i + 1) q.pid (some i) x
    → Result (q ∷ qs) i tmp p x
take-Result q qs i tmp p goto_even ready odd less (k, run, even) = (suc k, run, even)
take-Result q qs i tmp p (picked r) ready odd less (inl (same, later, empty)) = inr (
  0,
  same ∙ ap some (omega arith),
  (ready, odd, behind q qs q.pid (λ e. (odd, omega arith)) later),
  less,
)
take-Result q qs i tmp p (picked r) ready odd less (inr (k, at, (run, odd', least), better)) =
    let below : pid_at qs k < q.pid = ground arith in
    inr (
      suc k,
      at ∙ ap some (omega arith),
      (run, odd', behind q qs (pid_at qs k) (λ e. (odd, omega arith)) least),
      ground (arith, below),
    )

fcfs_from-Result :
    (ps : List Proc) (i tmp : ℕ) (p : Option ℕ) → Result ps i tmp p (fcfs_from ps i tmp p)
unfolding fcfs_from
fcfs_from-Result [] i tmp p = inl (refl, λ k e. absurd (cc), λ z k. refl)
fcfs_from-Result (q ∷ qs) i tmp p = elim (Bool-cases (is_runnable q.state)) [
  | inr idle ↦
      rw (idle, fcfs_from)
        (skip-Result q qs i tmp p _ (λ e. absurd (cc)) (fcfs_from-Result qs (i + 1) tmp p))
  | inl ready ↦ elim (Bool-cases (is_even q)) [
    | inl even ↦ rw (ready, even, fcfs_from) (0, ready, even)
    | inr odd ↦ elim (Bool-cases (tmp == 0 || ltb q.pid tmp)) [
      | inl less ↦
          rw (ready, odd, less, fcfs_from)
            (take-Result q qs i tmp p _ ready odd less (fcfs_from-Result qs (i + 1) q.pid (some i)))
      | inr more ↦
          rw (ready, odd, more, fcfs_from)
            (skip-Result q qs i tmp p _ (λ e. (odd, more)) (fcfs_from-Result qs (i + 1) tmp p))
    ]
  ]
]

-- What a pass of the second loop says of the table.
abbrev pub Right : List Proc → Pass → Type 0
Right ps goto_even = (k : ℕ) × (runs ps k ≡ true) × (even_at ps k ≡ true)
Right ps (picked none) = (k : ℕ) → runs ps k ≡ false
Right ps (picked (some j)) = First ps j

right : (ps : List Proc) (x : Pass) → Result ps 0 0 none x → Right ps x
right ps goto_even h = h
right ps (picked none) (inl (same, later, empty)) = empty refl
right ps (picked none) (inr (k, at, first, better)) = absurd (cc)
right ps (picked (some j)) (inl (same, later, empty)) = absurd (cc)
right ps (picked (some j)) (inr (k, at, first, better)) =
    let e : j ≡ 0 + k = some-injective _ _ at in
    let slot : k ≡ j = omega arith in subst (First ps) slot first

-- A pass of the odd loop goes back to the even processes only if one of them is runnable, ends the
-- round only if no process is, and else picks a runnable process with an odd pid, the smallest pid
-- of all runnable processes, none of which is even.
pub fcfs-Right : (ps : List Proc) → Right ps (fcfs ps)
fcfs-Right ps = right ps (fcfs ps) (fcfs_from-Result ps 0 0 none)
