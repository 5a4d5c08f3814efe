-- ===== src/Thread/RoundRobin.antt =====
-- The scheduler of proc.c is a round robin.
use hyu_ele3021_os.Base.{
  ℕ, zero, suc, ◌+◌, ◌-◌, ◌≤◌, ◌<◌, ◌≡◌, refl, ◌∙◌, ap, Bool, true, false, none, some, List, [],
  ◌∷◌, arith, get_or, length, drop, Bool-cases, ◌⊎◌, inl, inr,
}
use native.Mathlib.Decide.{ℕ_discrete}
use hyu_ele3021_os.Mlfq.{is_runnable}
use hyu_ele3021_os.Thread.{Proc, PTable, zero_proc, proc_at, find_from, next_runnable}

-- A search finds the first hit: at or before a given one, and nothing hits before it.
find_from-first :
    (test : Proc → Bool) (ps : List Proc) (n a : ℕ)
    → test zero_proc ≡ false
    → test (get_or ps a zero_proc) ≡ true
    → (r : ℕ) × (find_from test ps n ≡ some (n + r))
      × (r ≤ a)
      × (test (get_or ps r zero_proc) ≡ true)
find_from-first test [] n a zf e = absurd (cc)
find_from-first test (p ∷ ps) n a zf e = elim (Bool-cases (test p)) [
  | inl hit ↦ (0, rw hit (ap some (omega arith)), omega arith, hit)
  | inr miss ↦ next a e miss (find_from-first test ps (n + 1))
]
  where
    next :
        (a : ℕ)
        → test (get_or (p ∷ ps) a zero_proc) ≡ true
        → test p ≡ false
        → ((b : ℕ)
            → test zero_proc ≡ false
            → test (get_or ps b zero_proc) ≡ true
            → (r : ℕ) × (find_from test ps (n + 1) ≡ some (n + 1 + r))
              × (r ≤ b)
              × (test (get_or ps r zero_proc) ≡ true))
        → (r : ℕ) × (find_from test (p ∷ ps) n ≡ some (n + r))
          × (r ≤ a)
          × (test (get_or (p ∷ ps) r zero_proc) ≡ true)
    next zero e miss go = absurd (cc)
    next (suc a) e miss go =
        let (r, run, le, hit) = go a zf e in
        (suc r, rw miss (run ∙ ap some (omega arith)), omega arith, hit)

get_or-drop :
    (ps : List Proc) (i j : ℕ)
    → i ≤ j
    → get_or (drop i ps) (j - i) zero_proc ≡ get_or ps j zero_proc
get_or-drop ps zero j h = ap (λ n. get_or ps n zero_proc) (omega arith)
get_or-drop [] (suc i) j h = refl
get_or-drop (p ∷ ps) (suc i) zero h = absurd (omega arith)
get_or-drop (p ∷ ps) (suc i) (suc j) h =
    ap (λ n. get_or (drop i ps) n zero_proc) (omega arith) ∙ get_or-drop ps i j (omega arith)

-- From slot `i` on, with a runnable process in a slot `j` from there: the next pick is a runnable slot
-- between them.
next_runnable-between :
    (t : PTable) (i j : ℕ)
    → i ≤ j
    → is_runnable (proc_at t j).state ≡ true
    → (c : ℕ) × (next_runnable t i ≡ some c) × (i ≤ c) × (c ≤ j)
unfolding next_runnable
next_runnable-between t i j h e =
    let (r, run, le, hit) =
      find_from-first (λ p. is_runnable p.state) (drop i t.proc) i (j - i) refl
        (ap (λ p. is_runnable p.state) (get_or-drop t.proc i j h) ∙ e) in
    (i + r, run, omega arith, omega arith)

-- The slots that a CPU picks in one round from slot `i` on, with the table as it is at each pick.
pub picks : List PTable → ℕ → List ℕ
picks [] i = []
picks (t ∷ ts) i = elim (next_runnable t i) [ none ↦ [] | some c ↦ c ∷ picks ts (c + 1) ]

abbrev pub Picked : ℕ → List ℕ → Type 0
Picked j [] = ⊥
Picked j (c ∷ cs) = (c ≡ j) ⊎ Picked j cs

abbrev pub AllRunnable : ℕ → List PTable → Type 0
AllRunnable j [] = Unit {0}
AllRunnable j (t ∷ ts) = (is_runnable (proc_at t j).state ≡ true) × AllRunnable j ts

-- No starvation within a round: if the process of slot `j` is runnable at each pick of a CPU that is
-- at slot `i` or before, then it is picked after at most `j - i` picks of others, however the rest
-- of the table changes between the picks.
pub Picked-picks :
    (ts : List PTable) (i j : ℕ)
    → i ≤ j
    → j - i < length ts
    → AllRunnable j ts
    → Picked j (picks ts i)
unfolding picks
Picked-picks [] i j le enough run = absurd (omega arith)
Picked-picks (t ∷ ts) i j le enough run =
    let (c, e, from, to) = next_runnable-between t i j le run.0 in
    elim (ℕ_discrete c j) [
      | yes same ↦ rw (e, picks) (inl same)
      | no other ↦
          let before : c + 1 ≤ j = omega (arith, other) in
          rw (e, picks) (inr (Picked-picks ts (c + 1) j before (omega arith) run.1))
    ]
