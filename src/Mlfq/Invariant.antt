-- ===== src/Mlfq/Invariant.antt =====
-- `numproc[l]` is the number of runnable processes of level `l`, and every level is one of the `k`.
pub mod Loops
pub mod Slot
pub mod Steps
pub mod Exit
pub mod Reach
use hyu_ele3021_os.Base.{
  ℕ, zero, suc, ◌+◌, ◌-◌, ◌^◌, ◌≤◌, ◌<◌, ◌≡◌, ◌≢◌, refl, ap, ◌∙◌, Bool, true, false, List, [], ◌∷◌,
  arith, if◌then◌else◌, ◌==◌, length, get_or, set, get_or-set, length-set, Bool-cases, inl, inr,
}
use hyu_ele3021_os.Base.Words.{inc32, dec32}
use hyu_ele3021_os.Mlfq.{Proc, PTable, zero_proc, proc_at, nproc, enter, leave}
use hyu_ele3021_os.Mlfq.Count.{weight, count, count-set, count-le-length, weight-le-count}

pub record Inv (k : ℕ) (t : PTable) : Type 0 where
  pub size : length t.proc ≡ nproc
  pub queues : length t.numproc ≡ k
  pub some_level : 0 < k
  pub levels : (i : ℕ) → (proc_at t i).level < k
  pub counted : (l : ℕ) → l < k → get_or t.numproc l 0 ≡ count l t.proc

pub get_or-enter :
    (np : List ℕ) (m l : ℕ)
    → m < length np
    → get_or np m 0 < 2 ^ 32 - 1
    → get_or (enter np m) l 0 ≡ get_or np l 0 + (if m == l then 1 else 0)
get_or-enter np m l h small = ground (arith, get_or-set np m l (inc32 (get_or np m 0)) 0)

pub get_or-leave :
    (np : List ℕ) (m l : ℕ)
    → m < length np
    → 0 < get_or np m 0
    → get_or np m 0 < 2 ^ 32
    → get_or (leave np m) l 0 + (if m == l then 1 else 0) ≡ get_or np l 0
get_or-leave np m l h some_left small = ground (arith, get_or-set np m l (dec32 (get_or np m 0)) 0)

-- What a step may do to one slot and to `numproc` together.
pub record Fits (k : ℕ) (t : PTable) (i : ℕ) (q : Proc) (np : List ℕ) : Type 0 where
  pub in_table : i < nproc
  pub level_in : q.level < k
  pub queues : length np ≡ k
  pub moved :
      (l : ℕ) → l < k → get_or np l 0 + weight l (proc_at t i) ≡ get_or t.numproc l 0 + weight l q

pub Inv-put :
    {k : ℕ} {t : PTable} (i : ℕ) (q : Proc) (np : List ℕ) (t' : PTable)
    → Inv k t
    → Fits k t i q np
    → t'.proc ≡ set t.proc i q
    → t'.numproc ≡ np
    → Inv k t'
Inv-put {k} {t} i q np t' v f same_proc same_np = record {
  size = rw same_proc (length-set t.proc i q ∙ v.size);
  queues = rw same_np f.queues;
  some_level = v.some_level;
  levels = λ j. rw same_proc (
      rw (get_or-set t.proc i j q zero_proc (omega (arith, v.size, f.in_table)))
        (level_at j (i == j)));
  counted = λ l h.
      rw (same_proc, same_np)
        (omega (
          arith,
          f.moved l h,
          v.counted l h,
          count-set l t.proc i q (omega (arith, v.size, f.in_table)),
        ));
}
  where
    level_at : (j : ℕ) (b : Bool) → (if b then q else proc_at t j).level < k
    level_at j true = f.level_in
    level_at j false = v.levels j
