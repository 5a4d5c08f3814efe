-- ===== src/Mlfq/Count.antt =====
-- Counting the runnable processes of a level, which `numproc` is meant to hold.
use hyu_ele3021_os.Base.{
  ℕ, zero, suc, ◌+◌, ◌≤◌, ◌<◌, ◌≡◌, ◌≢◌, refl, List, [], ◌∷◌, arith, if◌then◌else◌, length, get_or,
  set,
}
use hyu_ele3021_os.Mlfq.{Proc, zero_proc}
use hyu_ele3021_os.Mlfq.Scheduler.{eligible}

-- 1 for a runnable process of level `l`.
abbrev pub weight : ℕ → Proc → ℕ
weight l p = if eligible l p then 1 else 0

unfoldable pub count : ℕ → List Proc → ℕ
count l [] = 0
count l (p ∷ ps) = weight l p + count l ps

pub count-le-length : (l : ℕ) (ps : List Proc) → count l ps ≤ length ps
unfolding count
count-le-length l [] = omega arith
count-le-length l (p ∷ ps) = ground (arith, count-le-length l ps)

-- A slot that is written changes the count by its weights.
pub count-set :
    (l : ℕ) (ps : List Proc) (i : ℕ) (q : Proc)
    → i < length ps
    → count l (set ps i q) + weight l (get_or ps i zero_proc) ≡ count l ps + weight l q
unfolding count
count-set l [] i q h = absurd (omega arith)
count-set l (p ∷ ps) zero q h = omega arith
count-set l (p ∷ ps) (suc i) q h = omega (arith, count-set l ps i q (omega arith))

-- A runnable process is counted.
pub weight-le-count :
    (l : ℕ) (ps : List Proc) (i : ℕ) → i < length ps → weight l (get_or ps i zero_proc) ≤ count l ps
unfolding count
weight-le-count l [] i h = absurd (omega arith)
weight-le-count l (p ∷ ps) zero h = omega arith
weight-le-count l (p ∷ ps) (suc i) h = omega (arith, weight-le-count l ps i (omega arith))

-- Two of them are counted twice.
pub weights-le-count :
    (l : ℕ) (ps : List Proc) (i j : ℕ)
    → i < length ps
    → j < length ps
    → i ≢ j
    → weight l (get_or ps i zero_proc) + weight l (get_or ps j zero_proc) ≤ count l ps
unfolding count
weights-le-count l [] i j h h' e = absurd (omega arith)
weights-le-count l (p ∷ ps) zero zero h h' e = absurd (e refl)
weights-le-count l (p ∷ ps) zero (suc j) h h' e =
    omega (arith, weight-le-count l ps j (omega arith))
weights-le-count l (p ∷ ps) (suc i) zero h h' e =
    omega (arith, weight-le-count l ps i (omega arith))
weights-le-count l (p ∷ ps) (suc i) (suc j) h h' e =
    omega (arith, weights-le-count l ps i j (omega arith) (omega arith) (λ q. e (omega arith)))
