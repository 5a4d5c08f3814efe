-- ===== src/Log/Recovery.antt =====
-- Recovery from a crash, itself interrupted any number of times.
use hyu_ele3021_os.Base.{
  ℕ, zero, suc, ◌+◌, ◌≤◌, ◌<◌, ◌≡◌, refl, sym, ◌∙◌, ap, subst, List, [], ◌∷◌, arith, if◌then◌else◌,
  ◌⊎◌, inl, inr, get_or, ltb, leb, true, false, length, set, length-set, take, get_or-set_self,
  get_or-set_ne, replicate, length-replicate,
}
use native.Mathlib.Decide.{ℕ_discrete}
use hyu_ele3021_os.Log.{
  Block, Blocks, Write, Log, logsize, block_at, commit, read_blocks, read_head, recover_from_log,
  initlog,
}
use hyu_ele3021_os.Log.Disk.{replay, Every, Every-map, Every-take}
use hyu_ele3021_os.Log.Crash.{
  Ready, Safe, before, between, after, finish, finish-steps, commit-steps,
}
use hyu_ele3021_os.Log.Commit.{Home, Logged, Fits, Quiet, Committed}

-- `read_head` takes the block numbers back from the header.
get_or-read_blocks :
    (k i : ℕ) (hb : Block) (bs : List ℕ) (j : ℕ)
    → i + k ≤ length bs
    → j < i + k
    → get_or (read_blocks k i hb bs) j 0 ≡ (if leb i j then hb (j + 1) else get_or bs j 0)
unfolding read_blocks
get_or-read_blocks zero i hb bs j room h = let out : leb i j ≡ false = ground arith in rw out refl
get_or-read_blocks (suc k) i hb bs j room h =
    let bs' = set bs i (hb (i + 1)) in
    let size : length bs' ≡ length bs = length-set bs i (hb (i + 1)) in
    get_or-read_blocks k (i + 1) hb bs' j (omega arith) (omega arith) ∙ here
  where
    here :
        (if leb (i + 1) j then hb (j + 1) else get_or (set bs i (hb (i + 1))) j 0)
        ≡ (if leb i j then hb (j + 1) else get_or bs j 0)
    here = elim (ℕ_discrete i j) [
      | yes e ↦
          let a : leb (i + 1) j ≡ false = ground arith in
          let b : leb i j ≡ true = ground arith in
          rw (a, b)
            (subst (λ m. get_or (set bs i (hb (i + 1))) m 0 ≡ hb (m + 1)) e
              (get_or-set_self bs i (hb (i + 1)) 0 (omega arith)))
      | no e ↦ rw (get_or-set_ne bs i j (hb (i + 1)) 0 e) (ground arith)
    ]

-- The log as `read_head` leaves it when the machine starts.
abbrev booted : Log → Blocks → Log
booted lg d = record {
  start = lg.start;
  size = lg.size;
  outstanding = 0;
  committing = false;
  n = d lg.start 0;
  block = read_blocks (d lg.start 0) 0 (d lg.start) (replicate logsize 0);
}

abbrev pub recovery : Log → Blocks → List Write
recovery lg d = (initlog lg.start lg.size d).2

recovery-finish : (lg : Log) (d : Blocks) → recovery lg d ≡ finish (booted lg d) d
unfolding initlog recover_from_log read_head
recovery-finish lg d = refl

-- Only the start, the size and the logged blocks matter.
Committed-same :
    {lg : Log} {new : Blocks} {i : ℕ} {d : Blocks} (lg' : Log)
    → lg'.start ≡ lg.start
    → lg'.size ≡ lg.size
    → lg'.n ≡ lg.n
    → ((j : ℕ) → j < lg.n → block_at lg' j ≡ block_at lg j)
    → Committed lg new i d
    → Committed lg' new i d
Committed-same {lg} {new} {i} {d} lg' s z m at hd = record {
  count = rw s (hd.count ∙ sym m);
  entries = λ j h. rw s (hd.entries j (omega arith) ∙ sym (at j (omega arith)));
  copies = λ j h. rw s (hd.copies j (omega arith) ∙ ap new (sym (at j (omega arith))));
  home = λ b hb. elim (hd.home b (omega arith)) [
    | inl (j, from, lt, e) ↦ inl (j, from, omega arith, at j lt ∙ e)
    | inr same ↦ inr same
  ];
}

booted-block :
    (lg : Log) (new d : Blocks)
    → lg.n ≤ logsize
    → Committed lg new 0 d
    → (j : ℕ) → j < lg.n
    → block_at (booted lg d) j ≡ block_at lg j
booted-block lg new d small hd j h =
    let n = d lg.start 0 in
    let same : n ≡ lg.n = hd.count in
    let from_start : leb 0 j ≡ true = ground arith in
    get_or-read_blocks n 0 (d lg.start) (replicate logsize 0) j
      (omega (arith, length-replicate {A = ℕ} logsize 0)) (omega arith)
    ∙ rw from_start (hd.entries j h)

Quiet-booted : (lg : Log) (g d : Blocks) {e : Blocks} → Quiet (booted lg d) g e → Quiet lg g e
Quiet-booted lg g d h = record { empty = h.empty; home = h.home }

-- An empty log is recovered to what the disk holds.
recovery-Quiet :
    (lg : Log) (g d : Blocks)
    → 1 ≤ lg.size
    → Quiet lg g d
    → Every (Quiet lg g) d (recovery lg d) × Quiet lg g (replay d (recovery lg d))
recovery-Quiet lg g d room q =
    rw (recovery-finish lg d)
      (Every-map (Safe lb g g) (Quiet lg g) back d (finish lb d) steps.0, last)
  where
    lb : Log
    lb = booted lg d

    none_left : lb.n ≡ 0
    none_left = q.empty

    steps : Every (Safe lb g g) d (finish lb d) × Quiet lb g (replay d (finish lb d))
    steps =
        finish-steps
          (record {
            room = omega (arith, none_left);
            homes = λ j h. absurd (omega (arith, none_left));
          })
          g d d (λ j h. absurd (omega (arith, none_left)))
          (record {
            count = refl;
            entries = λ j h. absurd (omega (arith, none_left));
            copies = λ j h. absurd (omega (arith, none_left));
            home = λ b hb. inr (q.home b hb);
          })

    listed : (e : Blocks) (b : ℕ) → Logged lb 0 b ⊎ (e b ≡ g b) → e b ≡ g b
    listed e b (inl (j, from, lt, at)) = absurd (omega (arith, none_left))
    listed e b (inr same) = same

    last : Quiet lg g (replay d (finish lb d))
    last = Quiet-booted lg g d steps.1

    back : (e : Blocks) → Safe lb g g e → Quiet lg g e
    back e (before h) = Quiet-booted lg g d h
    back e (between h) = record {
      empty = h.count ∙ none_left;
      home = λ b hb. listed e b (h.home b hb);
    }
    back e (after h) = Quiet-booted lg g d h

recovery-Committed :
    (lg : Log) (old new d : Blocks)
    → Fits lg
    → lg.n ≤ logsize
    → Committed lg new 0 d
    → Every (Safe lg old new) d (recovery lg d) × Quiet lg new (replay d (recovery lg d))
recovery-Committed lg old new d fits small hd =
    rw (recovery-finish lg d)
      (Every-map (Safe lb old new) (Safe lg old new) back d (finish lb d) steps.0, last)
  where
    lb : Log
    lb = booted lg d

    same_n : lb.n ≡ lg.n
    same_n = hd.count

    at : (j : ℕ) → j < lg.n → block_at lb j ≡ block_at lg j
    at = booted-block lg new d small hd

    hd' : Committed lb new 0 d
    hd' = Committed-same lb refl refl same_n at hd

    steps : Every (Safe lb old new) d (finish lb d) × Quiet lb new (replay d (finish lb d))
    steps =
        finish-steps
          (record {
            room = omega (arith, same_n, fits.room);
            homes = λ j h.
                subst (Home lg) (sym (at j (omega (arith, same_n))))
                  (fits.homes j (omega (arith, same_n)));
          })
          old d d hd'.copies hd'

    last : Quiet lg new (replay d (finish lb d))
    last = Quiet-booted lg new d steps.1

    back : (e : Blocks) → Safe lb old new e → Safe lg old new e
    back e (before h) = before (Quiet-booted lg old d h)
    back e (between h) =
        between
          (Committed-same lg refl refl (sym same_n) (λ j lt. sym (at j (omega (arith, same_n)))) h)
    back e (after h) = after (Quiet-booted lg new d h)

-- Machines that crash during recovery, each after some first few of its writes.
unfoldable pub crashes : Log → Blocks → List ℕ → Blocks
crashes lg d [] = d
crashes lg d (k ∷ ks) = crashes lg (replay d (take k (recovery lg d))) ks

module _ {lg : Log} {old new : Blocks} (r : Ready lg old new) where
  recovery-Safe : (d : Blocks) → Safe lg old new d → Every (Safe lg old new) d (recovery lg d)
  recovery-Safe d (before q) =
      Every-map (Quiet lg old) (Safe lg old new) (λ e. before) d (recovery lg d)
        (recovery-Quiet lg old d (omega (arith, r.fits.room)) q).0
  recovery-Safe d (between c) = (recovery-Committed lg old new d r.fits r.bounded c).0
  recovery-Safe d (after q) =
      Every-map (Quiet lg new) (Safe lg old new) (λ e. after) d (recovery lg d)
        (recovery-Quiet lg new d (omega (arith, r.fits.room)) q).0

  crashes-Safe : (ks : List ℕ) (d : Blocks) → Safe lg old new d → Safe lg old new (crashes lg d ks)
  unfolding crashes
  crashes-Safe [] d s = s
  crashes-Safe (k ∷ ks) d s =
      crashes-Safe ks _ (Every-take (Safe lg old new) d (recovery lg d) k (recovery-Safe d s))

  recovered :
      (d : Blocks)
      → Safe lg old new d
      → Quiet lg old (replay d (recovery lg d)) ⊎ Quiet lg new (replay d (recovery lg d))
  recovered d (before q) = inl (recovery-Quiet lg old d (omega (arith, r.fits.room)) q).1
  recovered d (between c) = inr (recovery-Committed lg old new d r.fits r.bounded c).1
  recovered d (after q) = inr (recovery-Quiet lg new d (omega (arith, r.fits.room)) q).1

  -- A commit is atomic: let the machine crash after any `k` of the commit's writes, and again after
  -- any of the writes of each of several recoveries; the next recovery that completes leaves, on
  -- every block outside the log, either all the old contents or all the new ones, and an empty log.
  pub commit-atomic :
      (k : ℕ) (ks : List ℕ)
      → let d = crashes lg (replay old (take k (commit lg new).2)) ks in
        Quiet lg old (replay d (recovery lg d)) ⊎ Quiet lg new (replay d (recovery lg d))
  commit-atomic k ks =
      let first = Every-take (Safe lg old new) old (commit lg new).2 k (commit-steps r).0 in
      recovered _ (crashes-Safe ks _ first)

  -- A commit that is not interrupted leaves the new contents and an empty log, on the disk and in
  -- the log of memory.
  pub commit-done : Quiet lg new (replay old (commit lg new).2) × ((commit lg new).0.n ≡ 0)
  unfolding commit
  commit-done =
      let some_left : ltb 0 lg.n ≡ true = ground (arith, r.pending) in
      ((commit-steps r).1, rw some_left refl)
