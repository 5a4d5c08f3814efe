-- ===== src/Mlfq/Invariant/Slot.antt =====
-- Writes to one slot that keep the invariant, and slots that a search finds.
use hyu_ele3021_os.Base.{
  ℕ, suc, ◌+◌, ◌≤◌, ◌<◌, ◌≡◌, refl, ◌∙◌, Bool, true, false, List, [], ◌∷◌, arith, length, get_or,
  set, length-set, Bool-cases, inl, inr, some,
}
use hyu_ele3021_os.Mlfq.{
  Proc, PTable, zero_proc, proc_at, put_proc, nproc, enter, leave, is_runnable, find_from,
}
use hyu_ele3021_os.Mlfq.Count.{weight, count-le-length, weight-le-count}
use hyu_ele3021_os.Mlfq.Invariant.{Inv, Inv-put, get_or-enter, get_or-leave}

-- What a search in the table finds passes the test.
pub record IsFound (test : Proc → Bool) (ps : List Proc) (n j : ℕ) : Type 0 where
  pub index : ℕ
  pub place : j ≡ n + index
  pub in_list : index < length ps
  pub passes : test (get_or ps index zero_proc) ≡ true

pub find_from-IsFound :
    (test : Proc → Bool) (ps : List Proc) (n j : ℕ)
    → find_from test ps n ≡ some j
    → IsFound test ps n j
find_from-IsFound test [] n j e = absurd (cc)
find_from-IsFound test (p ∷ ps) n j e = elim (Bool-cases (test p)) [
  | inl hit ↦ record { index = 0; place = ground arith; in_list = omega arith; passes = hit }
  | inr miss ↦
      let f = find_from-IsFound test ps (n + 1) j (rw miss at e) in
      record {
        index = suc f.index;
        place = omega (arith, f.place);
        in_list = omega (arith, f.in_list);
        passes = f.passes;
      }
]

-- A slot that is found in the table.
pub found-at :
    (test : Proc → Bool) (t : PTable) {j : ℕ}
    → find_from test t.proc 0 ≡ some j
    → (j < length t.proc) × (test (proc_at t j) ≡ true)
found-at test t {j} e =
    let f = find_from-IsFound test t.proc 0 j e in
    let same : f.index ≡ j = omega (arith, f.place) in
    (omega (arith, f.in_list), rw same at f.passes)

module _ {k : ℕ} {t : PTable} (v : Inv k t) (i : ℕ) where
  -- A write to a slot that counts as before.
  pub put_proc-Inv :
      (q : Proc)
      → i < nproc
      → q.level < k
      → ((l : ℕ) → weight l q ≡ weight l (proc_at t i))
      → Inv k (put_proc t i q)
  put_proc-Inv q h level same =
      Inv-put i q t.numproc (put_proc t i q) v
        (record {
          in_table = h;
          level_in = level;
          queues = v.queues;
          moved = λ l lt. omega (arith, same l);
        })
        refl refl

  pub enough-room : (l : ℕ) → l < k → get_or t.numproc l 0 ≤ nproc
  enough-room l h = omega (arith, v.counted l h, count-le-length l t.proc, v.size)

  -- A process that was not runnable becomes so.
  pub enter-Inv :
      (q : Proc) (t' : PTable)
      → i < nproc
      → is_runnable (proc_at t i).state ≡ false
      → q.level < k
      → is_runnable q.state ≡ true
      → t'.proc ≡ set t.proc i q
      → t'.numproc ≡ enter t.numproc q.level
      → Inv k t'
  enter-Inv q t' h was level is same_proc same_np =
      Inv-put i q (enter t.numproc q.level) t' v
        (record {
          in_table = h;
          level_in = level;
          queues = length-set t.numproc q.level _ ∙ v.queues;
          moved = λ l lt. ground (
            arith,
            enough-room q.level level,
            get_or-enter t.numproc q.level l (omega (arith, v.queues, level))
                (omega (arith, enough-room q.level level)),
          );
        })
        same_proc same_np

  -- A runnable process stops being so.
  pub leave-Inv :
      (q : Proc) (t' : PTable)
      → i < nproc
      → is_runnable (proc_at t i).state ≡ true
      → q.level < k
      → is_runnable q.state ≡ false
      → t'.proc ≡ set t.proc i q
      → t'.numproc ≡ leave t.numproc (proc_at t i).level
      → Inv k t'
  leave-Inv q t' h was level is same_proc same_np =
      let m = (proc_at t i).level in
      let own = weight-le-count m t.proc i (omega (arith, v.size)) in
      Inv-put i q (leave t.numproc m) t' v
        (record {
          in_table = h;
          level_in = level;
          queues = length-set t.numproc m _ ∙ v.queues;
          moved = λ l lt. ground (
            arith,
            get_or-leave t.numproc m l (omega (arith, v.queues, v.levels i))
                (ground (arith, v.counted m (v.levels i), own))
                (omega (arith, enough-room m (v.levels i))),
          );
        })
        same_proc same_np

  -- A runnable process changes its level.
  pub move-Inv :
      (q : Proc) (t' : PTable)
      → i < nproc
      → is_runnable (proc_at t i).state ≡ true
      → q.level < k
      → is_runnable q.state ≡ true
      → t'.proc ≡ set t.proc i q
      → t'.numproc ≡ enter (leave t.numproc (proc_at t i).level) q.level
      → Inv k t'
  move-Inv q t' h was level is same_proc same_np =
      let m = (proc_at t i).level in
      let np = leave t.numproc m in
      let own = weight-le-count m t.proc i (omega (arith, v.size)) in
      let q1 : length np ≡ k = length-set t.numproc m _ ∙ v.queues in
      let few = enough-room q.level level in
      let less = λ (l : ℕ).
        get_or-leave t.numproc m l (omega (arith, v.queues, v.levels i))
          (ground (arith, v.counted m (v.levels i), own))
          (omega (arith, enough-room m (v.levels i))) in
      let more = λ (l : ℕ).
        get_or-enter np q.level l (omega (arith, level)) (ground (arith, less q.level)) in
      Inv-put i q (enter np q.level) t' v
        (record {
          in_table = h;
          level_in = level;
          queues = length-set np q.level _ ∙ q1;
          moved = λ l lt. ground (arith, less l, more l);
        })
        same_proc same_np
