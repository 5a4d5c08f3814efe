-- ===== src/Log/Crash.antt =====
-- What every crash during a commit leaves on the disk.
use hyu_ele3021_os.Base.{
  ℕ, ◌+◌, ◌≤◌, ◌<◌, ◌≡◌, refl, sym, ◌∙◌, subst, List, [], ◌∷◌, ◌++◌, arith, ◌⊎◌, ltb, true,
}
use hyu_ele3021_os.Log.{
  Blocks, Write, apply, Log, logsize, block_at, install_trans, write_log, header, write_head,
  commit,
}
use hyu_ele3021_os.Log.Disk.{
  replay, Every, replay-append, Every-append, Every-map, Every-last, apply_ne,
}
use hyu_ele3021_os.Log.Commit.{
  Home, Logged, Fits, Quiet, Committed, write_log-steps, write_head-Committed, install-steps,
  clear-Quiet,
}

-- What a commit of `lg` starts from: a disk `old` whose log is empty, and a cache `new` that differs
-- from it outside the log only in the logged blocks.
pub record Ready (lg : Log) (old new : Blocks) : Type 0 where
  pub fits : Fits lg
  pub pending : 0 < lg.n
  pub bounded : lg.n ≤ logsize
  pub empty : old lg.start 0 ≡ 0
  pub changed : (b : ℕ) → Home lg b → Logged lg 0 b ⊎ (old b ≡ new b)

-- A disk from which recovery brings back all of `old`, or all of `new`.
pub data Safe (lg : Log) (old new d : Blocks) : Type 0 where
  before : Quiet lg old d → Safe lg old new d
  between : Committed lg new 0 d → Safe lg old new d
  after : Quiet lg new d → Safe lg old new d

-- The end of a commit and of a recovery: install the logged blocks and clear the log.
abbrev pub finish : Log → Blocks → List Write
finish lg c =
    let (c1, w1) = install_trans lg.n 0 lg c in w1 ++ (write_head (record lg { n = 0 }) c1).1

module _ {lg : Log} (fits : Fits lg) (old : Blocks) {new : Blocks} where
  pub finish-steps :
      (c d : Blocks)
      → ((j : ℕ) → j < lg.n → c (lg.start + j + 1) ≡ new (block_at lg j))
      → Committed lg new 0 d
      → Every (Safe lg old new) d (finish lg c) × Quiet lg new (replay d (finish lg c))
  unfolding write_head replay
  finish-steps c d copies hd =
      let (every, last) = install-steps fits lg.n 0 c d (omega arith) copies hd in
      let ws = (install_trans lg.n 0 lg c).1 in
      let hb = (install_trans lg.n 0 lg c).0 lg.start in
      let clear : List Write = (lg.start, header (record lg { n = 0 }) hb) ∷ [] in
      let done = clear-Quiet fits (replay d ws) hb last in
      (
        Every-append (Safe lg old new) d ws clear
            (Every-map (Committed lg new 0) (Safe lg old new) (λ e. between) d ws every)
            (between (Every-last (Committed lg new 0) d ws every), after done),
        subst (Quiet lg new) (sym (replay-append d ws clear)) done,
      )

module _ {lg : Log} {old new : Blocks} (r : Ready lg old new) where
  -- Every write of the commit leaves a safe disk, and the last leaves `new`.
  pub commit-steps :
      Every (Safe lg old new) old (commit lg new).2 × Quiet lg new (replay old (commit lg new).2)
  unfolding commit write_head replay
  commit-steps =
      let some_left : ltb 0 lg.n ≡ true = ground (arith, r.pending) in
      let quiet : Quiet lg old old = record { empty = r.empty; home = λ b h. refl } in
      let (copied, every, logged) =
        write_log-steps r.fits lg.n 0 new old (omega arith)
          (record { outside = λ b h. refl; copies = λ j h. absurd (omega arith) })
          (record { quiet = quiet; copies = λ j h. absurd (omega arith) }) in
      let (c1, w1) = write_log lg.n 0 lg new in
      let head : Write = (lg.start, header lg (c1 lg.start)) in
      let d2 = apply (replay old w1) head in
      let commits = write_head-Committed r.fits (replay old w1) (c1 lg.start) r.changed logged in
      let (rest, done) =
        finish-steps r.fits old (apply c1 head) d2
          (λ j h. apply_ne c1 lg.start _ (lg.start + j + 1) (λ e. omega arith) ∙ copied.copies j h)
          commits in
      rw some_left (
        Every-append (Safe lg old new) old w1 _
            (Every-map (Quiet lg old) (Safe lg old new) (λ e. before) old w1 every)
            (before logged.quiet, rest),
        subst (Quiet lg new) (sym (replay-append old w1 _)) done,
      )
