-- ===== src/Log/Commit.antt =====
-- What the disk holds after each write of a commit.
use hyu_ele3021_os.Base.{
  ℕ, zero, suc, ◌+◌, ◌-◌, ◌≤◌, ◌<◌, ◌≡◌, ◌≢◌, sym, ◌∙◌, ap, subst, arith, ◌==◌, ◌⊎◌, inl, inr, leb,
  true, false,
}
use native.Mathlib.Decide.{ℕ_discrete}
use hyu_ele3021_os.Log.{Block, Blocks, apply, Log, block_at, install_trans, write_log, header}
use hyu_ele3021_os.Log.Disk.{replay, Every, apply_self, apply_ne}

-- A block outside the log.
abbrev pub Home : Log → ℕ → Type 0
Home lg b = (b < lg.start) ⊎ (lg.start + lg.size ≤ b)

-- `b` is one of the logged blocks from place `i` on.
abbrev pub Logged : Log → ℕ → ℕ → Type 0
Logged lg i b = (j : ℕ) × (i ≤ j) × (j < lg.n) × (block_at lg j ≡ b)

-- The log fits, and logs blocks outside itself.
pub record Fits (lg : Log) : Type 0 where
  pub room : lg.n + 1 ≤ lg.size
  pub homes : (j : ℕ) → j < lg.n → Home lg (block_at lg j)

-- The disk holds `new` outside the log, and the header says that the log is empty.
pub record Quiet (lg : Log) (new d : Blocks) : Type 0 where
  pub empty : d lg.start 0 ≡ 0
  pub home : (b : ℕ) → Home lg b → d b ≡ new b

-- The header lists the blocks of `lg`, the log holds their contents in `new`, and outside the log
-- the disk holds `new` but perhaps for the logged blocks from place `i` on.
pub record Committed (lg : Log) (new : Blocks) (i : ℕ) (d : Blocks) : Type 0 where
  pub count : d lg.start 0 ≡ lg.n
  pub entries : (j : ℕ) → j < lg.n → d lg.start (j + 1) ≡ block_at lg j
  pub copies : (j : ℕ) → j < lg.n → d (lg.start + j + 1) ≡ new (block_at lg j)
  pub home : (b : ℕ) → Home lg b → Logged lg i b ⊎ (d b ≡ new b)

-- The cache while the log is written up to place `i`: outside the log it is `new`.
pub record Copied (lg : Log) (new : Blocks) (i : ℕ) (c : Blocks) : Type 0 where
  pub outside : (b : ℕ) → Home lg b → c b ≡ new b
  pub copies : (j : ℕ) → j < i → c (lg.start + j + 1) ≡ new (block_at lg j)

-- The disk at that time: outside the log it is `old`, and the header is empty.
pub record Logging (lg : Log) (old new : Blocks) (i : ℕ) (d : Blocks) : Type 0 where
  pub quiet : Quiet lg old d
  pub copies : (j : ℕ) → j < i → d (lg.start + j + 1) ≡ new (block_at lg j)

-- The copy to log block `i` leaves the other copies and the blocks outside the log.
copy-ne :
    (d : Blocks) (s i j : ℕ) (x : Block)
    → j ≢ i
    → apply d (s + i + 1, x) (s + j + 1) ≡ d (s + j + 1)
copy-ne d s i j x h = apply_ne d (s + i + 1) x (s + j + 1) (λ e. h (omega arith))

copy_last :
    (d : Blocks) (s i : ℕ) (x : Block) (want : ℕ → Block)
    → x ≡ want i
    → ((j : ℕ) → j < i → d (s + j + 1) ≡ want j)
    → (j : ℕ) → j < i + 1
    → apply d (s + i + 1, x) (s + j + 1) ≡ want j
copy_last d s i x want last before j h = elim (ℕ_discrete j i) [
  | yes e ↦
      subst (λ m. apply d (s + i + 1, x) (s + m + 1) ≡ want m) (sym e)
        (apply_self d (s + i + 1) x ∙ last)
  | no e ↦ copy-ne d s i j x e ∙ before j (omega arith)
]

module _ {lg : Log} (fits : Fits lg) where
  pub not-Home : (i b : ℕ) → i < lg.n → Home lg b → lg.start + i + 1 ≢ b
  not-Home i b h hb e = omega (arith, fits.room)

  install-Committed :
      {new : Blocks} (i : ℕ) (d : Blocks) (x : Block)
      → i < lg.n
      → x ≡ new (block_at lg i)
      → Committed lg new i d
      → Committed lg new (i + 1) (apply d (block_at lg i, x))
  install-Committed {new} i d x h right hd =
      let hi = fits.homes i h in
      record {
        count =
            ap (λ (b : Block). b 0) (apply_ne d _ x lg.start (λ e. omega (arith, fits.room)))
            ∙ hd.count;
        entries = λ j hj.
            ap (λ (b : Block). b (j + 1)) (apply_ne d _ x lg.start (λ e. omega (arith, fits.room)))
            ∙ hd.entries j hj;
        copies = λ j hj.
            apply_ne d _ x (lg.start + j + 1) (λ e. omega (arith, fits.room)) ∙ hd.copies j hj;
        home = λ b hb. elim (ℕ_discrete (block_at lg i) b) [
          | yes e ↦ inr (
              subst (λ m. apply d (block_at lg i, x) m ≡ new m) e
                (apply_self d (block_at lg i) x ∙ right))
          | no e ↦ elim (hd.home b hb) [
            | inl (j, from, lt, at) ↦
                let later : j ≢ i = λ same. e (subst (λ m. block_at lg m ≡ b) same at) in
                inl (j, omega arith, lt, at)
            | inr done ↦ inr (apply_ne d _ x b e ∙ done)
          ]
        ];
      }

  weaken : {new : Blocks} (i : ℕ) (d : Blocks) → Committed lg new i d → Committed lg new 0 d
  weaken {new} i d hd = record {
    count = hd.count;
    entries = hd.entries;
    copies = hd.copies;
    home = λ b hb. elim (hd.home b hb) [
      | inl (j, from, lt, at) ↦ inl (j, omega arith, lt, at)
      | inr same ↦ inr same
    ];
  }

  -- When all are installed, the header with count 0 clears the log.
  pub clear-Quiet :
      {new : Blocks} (d : Blocks) (hb : Block)
      → Committed lg new lg.n d
      → Quiet lg new (apply d (lg.start, header (record lg { n = 0 }) hb))
  clear-Quiet d hb hd = record {
    empty = ap (λ (b : Block). b 0) (apply_self d lg.start _);
    home = λ b hb'. elim (hd.home b hb') [
      | inl (j, from, lt, at) ↦ absurd (omega arith)
      | inr same ↦ apply_ne d lg.start _ b (λ e. omega (arith, fits.room)) ∙ same
    ];
  }

  pub install-steps :
      {new : Blocks} (k i : ℕ) (c d : Blocks)
      → i + k ≡ lg.n
      → ((j : ℕ) → j < lg.n → c (lg.start + j + 1) ≡ new (block_at lg j))
      → Committed lg new i d
      → Every (Committed lg new 0) d (install_trans k i lg c).1
        × Committed lg new lg.n (replay d (install_trans k i lg c).1)
  unfolding install_trans replay
  install-steps {new} zero i c d e hc hd =
      (weaken i d hd, subst (λ m. Committed lg new m d) (omega arith) hd)
  install-steps {new} (suc k) i c d e hc hd =
      let x = c (lg.start + i + 1) in
      let right = hc i (omega arith) in
      let hi = fits.homes i (omega arith) in
      let (every, last) =
        install-steps k (i + 1) (apply c (block_at lg i, x)) (apply d (block_at lg i, x))
          (omega arith)
          (λ j h.
            apply_ne c (block_at lg i) x (lg.start + j + 1) (λ e. omega (arith, fits.room))
            ∙ hc j h)
          (install-Committed i d x (omega arith) right hd) in
      ((weaken i d hd, every), last)

module _ {lg : Log} (fits : Fits lg) {old new : Blocks} where
  pub write_log-steps :
      (k i : ℕ) (c d : Blocks)
      → i + k ≡ lg.n
      → Copied lg new i c
      → Logging lg old new i d
      → Copied lg new lg.n (write_log k i lg c).0
        × Every (Quiet lg old) d (write_log k i lg c).1
        × Logging lg old new lg.n (replay d (write_log k i lg c).1)
  unfolding write_log replay
  write_log-steps zero i c d e hc hd =
      let all : i ≡ lg.n = omega arith in
      (subst (λ m. Copied lg new m c) all hc, hd.quiet, subst (λ m. Logging lg old new m d) all hd)
  write_log-steps (suc k) i c d e hc hd =
      let x = c (block_at lg i) in
      let right : x ≡ new (block_at lg i) = hc.outside _ (fits.homes i (omega arith)) in
      let hc' : Copied lg new (i + 1) (apply c (lg.start + i + 1, x)) = record {
        outside = λ b hb. apply_ne c _ x b (not-Home fits i b (omega arith) hb) ∙ hc.outside b hb;
        copies = copy_last c lg.start i x (λ j. new (block_at lg j)) right hc.copies;
      } in
      let hd' : Logging lg old new (i + 1) (apply d (lg.start + i + 1, x)) = record {
        quiet = record {
          empty = ap (λ (b : Block). b 0) (apply_ne d _ x lg.start (omega arith)) ∙ hd.quiet.empty;
          home = λ b hb. apply_ne d _ x b (not-Home fits i b (omega arith) hb) ∙ hd.quiet.home b hb;
        };
        copies = copy_last d lg.start i x (λ j. new (block_at lg j)) right hd.copies;
      } in
      let (c', every, d') = write_log-steps k (i + 1) _ _ (omega arith) hc' hd' in
      (c', (hd.quiet, every), d')

  -- The header's write is the commit.
  pub write_head-Committed :
      (d : Blocks) (hb : Block)
      → ((b : ℕ) → Home lg b → Logged lg 0 b ⊎ (old b ≡ new b))
      → Logging lg old new lg.n d
      → Committed lg new 0 (apply d (lg.start, header lg hb))
  write_head-Committed d hb changed hd = record {
    count = ap (λ (b : Block). b 0) (apply_self d lg.start (header lg hb));
    entries =
        λ j h. ap (λ (b : Block). b (j + 1)) (apply_self d lg.start (header lg hb)) ∙ entry j h;
    copies = λ j h. apply_ne d lg.start _ (lg.start + j + 1) (λ e. omega arith) ∙ hd.copies j h;
    home = λ b hb'. elim (changed b hb') [
      | inl listed ↦ inl listed
      | inr same ↦
          inr (apply_ne d lg.start _ b (λ e. omega (arith, fits.room)) ∙ hd.quiet.home b hb' ∙ same)
    ];
  }
    where
      entry : (j : ℕ) → j < lg.n → header lg hb (j + 1) ≡ block_at lg j
      entry j h =
          let back : j + 1 - 1 ≡ j = omega arith in
          let within : leb (j + 1) lg.n ≡ true = ground arith in
          let word : ((j + 1) == 0) ≡ false = ground arith in
          rw (word, within) (ap (block_at lg) back)
