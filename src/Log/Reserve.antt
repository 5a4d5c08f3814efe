-- ===== src/Log/Reserve.antt =====
-- Calls that each keep to MAXOPBLOCKS calls of `log_write` never overfill the log that `begin_op`
-- reserves for them.
use hyu_ele3021_os.Base.{
  ℕ, suc, ◌+◌, ◌*◌, ◌≤◌, ◌≡◌, ◌≢◌, refl, sym, ◌∙◌, ap, Bool, true, false, none, some, List, [], ◌∷◌,
  arith, inl, inr, length, Option-cases,
}
use hyu_ele3021_os.Log.{
  Log, maxopblocks, logsize, begin_op, end_op, end_commit, log_refuses, log_block,
}

-- The log, and for each call between `begin_op` and `end_op` how many times it may still call
-- `log_write`, whether the block is new to the log or absorbed.
pub record Calls : Type 0 where
  pub log : Log
  pub budgets : List ℕ

abbrev pub total : List ℕ → ℕ
total [] = 0
total (b ∷ bs) = b + total bs

-- The first call goes last: a call that goes on is taken out of the list and put in front.
pub data Pick : List ℕ → ℕ → List ℕ → Type 0 where
  head : {b : ℕ} {bs : List ℕ} → Pick (b ∷ bs) b bs
  tail : {a b : ℕ} {bs rest : List ℕ} → Pick bs b rest → Pick (a ∷ bs) b (a ∷ rest)

-- The update of `log_write` is a step of its own: its tests were made at an earlier time.
pub data Step (s : Calls) : Calls → Type 0 where
  begins :
      {lg : Log}
      → begin_op s.log ≡ some lg
      → Step s (record { log = lg; budgets = maxopblocks ∷ s.budgets })
  logs :
      {left : ℕ} {rest : List ℕ} (b : ℕ)
      → Pick s.budgets (suc left) rest
      → Step s (record { log = log_block s.log b; budgets = left ∷ rest })
  ends :
      {left : ℕ} {rest : List ℕ} {lg : Log} {last : Bool}
      → Pick s.budgets left rest
      → end_op s.log ≡ some (lg, last)
      → Step s (record { log = lg; budgets = rest })
  commits :
      s.log.committing ≡ true
      → Step s (record { log = end_commit (record s.log { n = 0 }); budgets = s.budgets })

abbrev pub AllSmall : List ℕ → Type 0
AllSmall [] = Unit {0}
AllSmall (b ∷ bs) = (b ≤ maxopblocks) × AllSmall bs

-- What the calls may still log fits beside what is logged, if every `log_write` adds a block.
pub record IsReserved (s : Calls) : Type 0 where
  pub running : s.log.outstanding ≡ length s.budgets
  pub alone : s.log.committing ≡ true → s.budgets ≡ []
  pub small : AllSmall s.budgets
  pub fits : s.log.n + total s.budgets ≤ logsize
  pub few : length s.budgets ≤ 3

total-le : (bs : List ℕ) → AllSmall bs → total bs ≤ length bs * maxopblocks
total-le [] h = omega arith
total-le (b ∷ bs) h = omega (arith, total-le bs h.1)

pub Pick-total : {bs rest : List ℕ} {b : ℕ} → Pick bs b rest → total bs ≡ b + total rest
Pick-total head = refl
Pick-total (tail p) = omega (arith, Pick-total p)

pub Pick-length : {bs rest : List ℕ} {b : ℕ} → Pick bs b rest → length bs ≡ suc (length rest)
Pick-length head = refl
Pick-length (tail p) = omega (arith, Pick-length p)

Pick-small :
    {bs rest : List ℕ} {b : ℕ} → Pick bs b rest → AllSmall bs → (b ≤ maxopblocks) × AllSmall rest
Pick-small head h = h
Pick-small (tail p) h = let (b, r) = Pick-small p h.1 in (b, (h.0, r))

Pick-some : {bs rest : List ℕ} {b : ℕ} → Pick bs b rest → bs ≢ []
Pick-some p e = absurd (omega (arith, ap length e, Pick-length p))

eq-nil : (bs : List ℕ) → length bs ≡ 0 → bs ≡ []
eq-nil [] h = refl
eq-nil (b ∷ bs) h = absurd (omega arith)

-- What the update of `log_write` does to the counters.
pub log_block-n :
    (lg : Log) (b : ℕ)
    → ((log_block lg b).n ≤ lg.n + 1)
      × ((log_block lg b).outstanding ≡ lg.outstanding)
      × ((log_block lg b).committing ≡ lg.committing)
unfolding log_block
log_block-n lg b = (ground arith, refl, refl)

-- Every step keeps the reservation.
pub Step-IsReserved : {s t : Calls} → Step s t → IsReserved s → IsReserved t
unfolding begin_op end_op end_commit
Step-IsReserved {s} (begins {lg} e) r = record {
  running = ground (arith, r.running);
  alone = λ c. absurd (ground arith);
  small = (omega arith, r.small);
  fits = ground (arith, r.fits, r.running, total-le s.budgets r.small);
  few = ground (arith, r.running);
}
Step-IsReserved {s} (logs {left} {rest} b p) r =
    let (grows, same, busy) = log_block-n s.log b in
    let (bound, others) = Pick-small p r.small in
    record {
      running = same ∙ r.running ∙ Pick-length p;
      alone = λ c. absurd (Pick-some p (r.alone (sym busy ∙ c)));
      small = (omega arith, others);
      fits = omega (arith, r.fits, Pick-total p);
      few = omega (arith, r.few, Pick-length p);
    }
Step-IsReserved {s} (ends {left} {rest} {lg} {last} p e) r = record {
  running = ground (arith, r.running, Pick-length p, r.few);
  alone = λ c. eq-nil rest (ground (arith, r.running, Pick-length p, r.few));
  small = (Pick-small p r.small).1;
  fits = ground (arith, r.fits, Pick-total p);
  few = omega (arith, r.few, Pick-length p);
}
Step-IsReserved {s} (commits c) r = record {
  running = r.running;
  alone = λ h. r.alone c;
  small = r.small;
  fits = omega (arith, r.fits);
  few = r.few;
}

pub data Reach (start : Calls) : Calls → Type 0 where
  here : Reach start start
  later : {s t : Calls} → Reach start s → Step s t → Reach start t

abbrev pub idle_log : ℕ → ℕ → List ℕ → Calls
idle_log start size block = record {
  log = record {
    start = start;
    size = size;
    outstanding = 0;
    committing = false;
    n = 0;
    block = block;
  };
  budgets = [];
}

Reach-IsReserved :
    {start size : ℕ} {block : List ℕ} {s : Calls}
    → Reach (idle_log start size block) s
    → IsReserved s
Reach-IsReserved here = record {
  running = refl;
  alone = λ c. refl;
  small = tt;
  fits = omega arith;
  few = omega arith;
}
Reach-IsReserved (later r st) = Step-IsReserved st (Reach-IsReserved r)

log_refuses-open :
    {s : Calls} {left : ℕ} {rest : List ℕ}
    → IsReserved s
    → logsize + 1 ≤ s.log.size
    → Pick s.budgets (suc left) rest
    → log_refuses s.log ≡ false
unfolding log_refuses
log_refuses-open {s} v room p =
    ground (arith, v.fits, Pick-total p, v.running, Pick-length p, v.few)

end_op-none : (lg : Log) → end_op lg ≡ none → lg.committing ≡ true
unfolding end_op
end_op-none lg e = ground arith

-- However calls interleave, each calling `log_write` at most MAXOPBLOCKS times, absorbed blocks
-- included: if the log has LOGSIZE + 1 blocks, the tests of a `log_write` of theirs never panic, at
-- whatever time they are made, and no `end_op` panics.
pub Reach-no_panic :
    {start size : ℕ} {block : List ℕ} {s : Calls}
    → logsize + 1 ≤ s.log.size
    → Reach (idle_log start size block) s
    → ((left : ℕ) (rest : List ℕ) → Pick s.budgets (suc left) rest → log_refuses s.log ≡ false)
      × ((left : ℕ) (rest : List ℕ)
          → Pick s.budgets left rest
          → (lg : Log) × (last : Bool) × (end_op s.log ≡ some (lg, last)))
Reach-no_panic {s} room r = (
  λ left rest p. log_refuses-open v room p,
  λ left rest p. elim (Option-cases (end_op s.log)) [
    | inl e ↦ absurd (Pick-some p (v.alone (end_op-none s.log e)))
    | inr ((lg, last), e) ↦ (lg, last, e)
  ],
)
  where
    v : IsReserved s
    v = Reach-IsReserved r
