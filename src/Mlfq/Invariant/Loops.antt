-- ===== src/Mlfq/Invariant/Loops.antt =====
-- The loops of `wakeup1` and `boost` keep the invariant.
use hyu_ele3021_os.Base.{
  ℕ, zero, suc, ◌+◌, ◌^◌, ◌≤◌, ◌<◌, ◌≡◌, refl, ap, ◌∙◌, List, [], ◌∷◌, arith, ◌&&◌, length, get_or,
  length-set, Bool-cases, inl, inr,
}
use hyu_ele3021_os.Mlfq.{
  Proc, PTable, zero_proc, enter, leave, Chan, is_sleeping, same_chan, is_runnable,
}
use hyu_ele3021_os.Mlfq.Queue.{wake, wakeup1, boost_loop, boost}
use hyu_ele3021_os.Mlfq.Count.{count, count-le-length}
use hyu_ele3021_os.Mlfq.Invariant.{Inv, get_or-enter, get_or-leave}

-- Every level of a list of processes is one of the `k`.
abbrev pub Levels : ℕ → List Proc → Type 0
Levels k [] = Unit {0}
Levels k (p ∷ ps) = (p.level < k) × Levels k ps

pub Levels-get :
    (k : ℕ) (ps : List Proc) → 0 < k → Levels k ps → (i : ℕ) → (get_or ps i zero_proc).level < k
Levels-get k [] h ls i = h
Levels-get k (p ∷ ps) h ls zero = ls.0
Levels-get k (p ∷ ps) h ls (suc i) = Levels-get k ps h ls.1 i

pub get-Levels :
    (k : ℕ) (ps : List Proc) → ((i : ℕ) → (get_or ps i zero_proc).level < k) → Levels k ps
get-Levels k [] h = tt
get-Levels k (p ∷ ps) h = (h 0, get-Levels k ps (λ i. h (suc i)))

-- What a loop over the slots does to them and to `numproc`.
pub record Moved (k : ℕ) (ps : List Proc) (np : List ℕ) (ps' : List Proc) (np' : List ℕ)
    : Type 0 where
  pub size : length ps' ≡ length ps
  pub queues : length np' ≡ k
  pub levels : Levels k ps'
  pub moved : (l : ℕ) → l < k → get_or np' l 0 + count l ps ≡ get_or np l 0 + count l ps'

pub Moved-Inv :
    {k : ℕ} {t : PTable} (t' : PTable)
    → Inv k t
    → Moved k t.proc t.numproc t'.proc t'.numproc
    → Inv k t'
Moved-Inv {k} t' v m = record {
  size = m.size ∙ v.size;
  queues = m.queues;
  some_level = v.some_level;
  levels = Levels-get k t'.proc v.some_level m.levels;
  counted = λ l h. omega (arith, m.moved l h, v.counted l h);
}

wake-Moved :
    (k : ℕ) (ch : Chan) (ps : List Proc) (np : List ℕ)
    → length np ≡ k
    → Levels k ps
    → ((l : ℕ) → l < k → get_or np l 0 + length ps < 2 ^ 32)
    → Moved k ps np (wake ch ps np).0 (wake ch ps np).1
unfolding wake count
wake-Moved k ch [] np q ls room = record {
  size = refl;
  queues = q;
  levels = tt;
  moved = λ l h. refl;
}
wake-Moved k ch (p ∷ ps) np q ls room =
    elim (Bool-cases (is_sleeping p.state && same_chan p.chan ch)) [
      | inl hit ↦
          let more = λ (l : ℕ).
            get_or-enter np p.level l (omega (arith, ls.0)) (omega (arith, room p.level ls.0)) in
          let m =
            wake-Moved k ch ps (enter np p.level) (length-set np p.level _ ∙ q) ls.1
              (λ l h. ground (arith, more l, room l h)) in
          rw hit (record {
            size = ap suc m.size;
            queues = m.queues;
            levels = (ls.0, m.levels);
            moved = λ l h. ground (arith, more l, m.moved l h);
          })
      | inr miss ↦
          let m = wake-Moved k ch ps np q ls.1 (λ l h. omega (arith, room l h)) in
          rw miss (record {
            size = ap suc m.size;
            queues = m.queues;
            levels = (ls.0, m.levels);
            moved = λ l h. omega (arith, m.moved l h);
          })
    ]

-- `wakeup1` keeps the invariant.
pub wakeup1-Inv : {k : ℕ} {t : PTable} (ch : Chan) → Inv k t → Inv k (wakeup1 ch t)
unfolding wakeup1
wakeup1-Inv {k} {t} ch v = Moved-Inv (wakeup1 ch t) v (
    wake-Moved k ch t.proc t.numproc v.queues (get-Levels k t.proc v.levels)
      (λ l h. omega (arith, v.counted l h, count-le-length l t.proc, v.size)))

boost_loop-Moved :
    (k : ℕ) (ps : List Proc) (np : List ℕ)
    → 0 < k
    → length np ≡ k
    → Levels k ps
    → ((l : ℕ) → l < k → get_or np l 0 + length ps < 2 ^ 32)
    → ((l : ℕ) → l < k → count l ps ≤ get_or np l 0)
    → Moved k ps np (boost_loop ps np).0 (boost_loop ps np).1
unfolding boost_loop count
boost_loop-Moved k [] np pos q ls room enough = record {
  size = refl;
  queues = q;
  levels = tt;
  moved = λ l h. refl;
}
boost_loop-Moved k (p ∷ ps) np pos q ls room enough = elim (Bool-cases (is_runnable p.state)) [
  | inl counted ↦
      let np1 = leave np p.level in
      let few = room p.level ls.0 in
      let own = enough p.level ls.0 in
      let less =
        λ (l : ℕ). get_or-leave np p.level l (omega (arith, ls.0)) (ground arith) (omega arith) in
      let q1 : length np1 ≡ k = length-set np p.level _ ∙ q in
      let more =
        λ (l : ℕ). get_or-enter np1 0 l (omega arith) (ground (arith, less 0, room 0 pos)) in
      let m =
        boost_loop-Moved k ps (enter np1 0) pos (length-set np1 0 _ ∙ q1) ls.1
          (λ l h. ground (arith, more l, less l, room l h))
          (λ l h. ground (arith, more l, less l, enough l h)) in
      rw counted (record {
        size = ap suc m.size;
        queues = m.queues;
        levels = (ground (arith, ls.0), m.levels);
        moved = λ l h. ground (arith, more l, less l, m.moved l h);
      })
  | inr other ↦
      let m =
        boost_loop-Moved k ps np pos q ls.1 (λ l h. omega (arith, room l h))
          (λ l h. ground (arith, enough l h)) in
      rw other (record {
        size = ap suc m.size;
        queues = m.queues;
        levels = (ground (arith, ls.0), m.levels);
        moved = λ l h. ground (arith, m.moved l h);
      })
]

-- `boost` keeps the invariant.
pub boost-Inv : {k : ℕ} {t : PTable} → Inv k t → Inv k (boost t)
unfolding boost
boost-Inv {k} {t} v = Moved-Inv (boost t) v (
    boost_loop-Moved k t.proc t.numproc v.some_level v.queues (get-Levels k t.proc v.levels)
      (λ l h. omega (arith, v.counted l h, count-le-length l t.proc, v.size))
      (λ l h. omega (arith, v.counted l h)))
