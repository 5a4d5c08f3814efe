-- ===== src/Bcache/View.antt =====
-- The cache of bio.c as a disk that forgets nothing: what log.c relies on.

use hyu_ele3021_os.Base.{
  ℕ, ◌-◌, ◌≤◌, ◌<◌, ◌≡◌, ◌≢◌, refl, sym, ◌∙◌, ap, subst, true, false, not, ◌&&◌, arith, ◌==◌,
  length, length-set, get_or-set, if◌then◌else◌, inl, inr, ◌⊎◌,
}
use native.Mathlib.Decide.{ℕ_discrete}
use hyu_ele3021_os.Bcache.{Bcache, Buf, Block, nbuf, zero_buf, is_unused, buf_at, put_buf}

-- The nodes of buffers.
abbrev pub IsBuf : ℕ → Type 0
IsBuf b = (0 < b) × (b ≤ nbuf)

-- A read of the buffers after a write.
at-put :
    (s : Bcache) (b j : ℕ) (v : Buf)
    → length s.buf ≡ nbuf
    → IsBuf b
    → IsBuf j
    → buf_at (put_buf s b v) j ≡ (if j == b then v else buf_at s j)
at-put s b j v size h h' =
    get_or-set s.buf (b - 1) (j - 1) v zero_buf (omega arith)
    ∙ ap (λ t. if t then v else buf_at s j) test
  where
    test : ((b - 1) == (j - 1)) ≡ (j == b)
    test = ground arith

-- The cache and the disk hold the contents `v` of all blocks: every valid buffer has its block's
-- contents, and so has the disk, except for a block in a buffer that is in use or dirty. No two buffers
-- have the same block.
pub record Agrees (s : Bcache) (v : ℕ → Block) : Type 0 where
  pub size : length s.buf ≡ nbuf
  pub unique :
      (i j : ℕ)
      → IsBuf i
      → IsBuf j
      → (buf_at s i).dev ≡ 1
      → (buf_at s j).dev ≡ 1
      → (buf_at s i).blockno ≡ (buf_at s j).blockno
      → i ≡ j
  pub cached :
      (b : ℕ)
      → IsBuf b
      → (buf_at s b).dev ≡ 1
      → (buf_at s b).valid ≡ true
      → (buf_at s b).block ≡ v (buf_at s b).blockno
  pub read_first : (b : ℕ) → IsBuf b → (buf_at s b).dirty ≡ true → (buf_at s b).valid ≡ true
  pub home :
      (n : ℕ)
      → (s.disk n ≡ v n)
        ⊎ ((b : ℕ) × IsBuf b
            × ((buf_at s b).dev ≡ 1)
            × ((buf_at s b).blockno ≡ n)
            × ((buf_at s b).valid ≡ true)
            × (is_unused s b ≡ false))

-- A buffer after a write is what was written, or what it was.
pub put-slot :
    (s : Bcache) (b j : ℕ) (w : Buf)
    → length s.buf ≡ nbuf
    → IsBuf b
    → IsBuf j
    → ((j ≡ b) × (buf_at (put_buf s b w) j ≡ w))
      ⊎ ((j ≢ b) × (buf_at (put_buf s b w) j ≡ buf_at s j))
put-slot s b j w size h h' = elim (ℕ_discrete j b) [
  | yes e ↦
      let test : (j == b) ≡ true = ground arith in
      inl (e, at-put s b j w size h h' ∙ ap (λ t. if t then w else buf_at s j) test)
  | no other ↦
      let test : (j == b) ≡ false = ground arith in
      inr (other, at-put s b j w size h h' ∙ ap (λ t. if t then w else buf_at s j) test)
]

pub put_self :
    (s : Bcache) (b : ℕ) (w : Buf) → length s.buf ≡ nbuf → IsBuf b → buf_at (put_buf s b w) b ≡ w
put_self s b w size h = elim (put-slot s b b w size h h) [
  | inl (e, at) ↦ at
  | inr (other, at) ↦ absurd (other refl)
]

-- Why a block's contents are not lost when its buffer `b` becomes `w`: the disk has them, or the
-- buffer keeps them, or it did not have them before, or was not needed.
abbrev pub Kept : Bcache → (ℕ → Block) → ℕ → Buf → Type 0
Kept s v b w =
    (s.disk w.blockno ≡ v w.blockno)
    ⊎ ((w.valid ≡ true) × ((w.refcnt == 0 && not w.dirty) ≡ false))
    ⊎ ((buf_at s b).valid ≡ false)
    ⊎ (is_unused s b ≡ true)

-- A change of one buffer that keeps its block and leaves the disk alone.
pub put-Agrees :
    (s : Bcache) (v : ℕ → Block) (b : ℕ) (w : Buf)
    → Agrees s v
    → IsBuf b
    → w.dev ≡ (buf_at s b).dev
    → w.blockno ≡ (buf_at s b).blockno
    → (w.dev ≡ 1 → w.valid ≡ true → w.block ≡ v w.blockno)
    → (w.dirty ≡ true → w.valid ≡ true)
    → Kept s v b w
    → Agrees (put_buf s b w) v
put-Agrees s v b w a h same_dev same_block fresh first kept = record {
  size = length-set s.buf (b - 1) w ∙ a.size;
  unique = λ i j hi hj di dj e.
      a.unique i j hi hj (sym (dev_at i hi) ∙ di) (sym (dev_at j hj) ∙ dj)
        (sym (block_at i hi) ∙ e ∙ block_at j hj);
  cached = λ j hj d ok. elim (slot j hj) [
    | inl (e, at) ↦
        ap (λ x. x.block) at
        ∙ fresh (sym (ap (λ x. x.dev) at) ∙ d) (sym (ap (λ x. x.valid) at) ∙ ok)
        ∙ ap (λ x. v x.blockno) (sym at)
    | inr (other, at) ↦
        ap (λ x. x.block) at
        ∙ a.cached j hj (sym (ap (λ x. x.dev) at) ∙ d) (sym (ap (λ x. x.valid) at) ∙ ok)
        ∙ ap (λ x. v x.blockno) (sym at)
  ];
  read_first = λ j hj d. elim (slot j hj) [
    | inl (e, at) ↦ ap (λ x. x.valid) at ∙ first (sym (ap (λ x. x.dirty) at) ∙ d)
    | inr (other, at) ↦ ap (λ x. x.valid) at ∙ a.read_first j hj (sym (ap (λ x. x.dirty) at) ∙ d)
  ];
  home = λ n. elim (a.home n) [
    | inl e ↦ inl e
    | inr (j, hj, d, no_, ok, used) ↦ elim (slot j hj) [
      | inr (other, at) ↦ inr (
        j,
        hj,
        ap (λ x. x.dev) at ∙ d,
        ap (λ x. x.blockno) at ∙ no_,
        ap (λ x. x.valid) at ∙ ok,
        ap (λ x. x.refcnt == 0 && not x.dirty) at ∙ used,
      )
      | inl (e, at) ↦
          let wb : w.blockno ≡ n = same_block ∙ ap (λ k. (buf_at s k).blockno) (sym e) ∙ no_ in
          elim kept [
            | inl home ↦ inl (subst (λ m. s.disk m ≡ v m) wb home)
            | inr (inl (ok', used')) ↦ inr (
              j,
              hj,
              ap (λ x. x.dev) at ∙ same_dev ∙ ap (λ k. (buf_at s k).dev) (sym e) ∙ d,
              ap (λ x. x.blockno) at ∙ wb,
              ap (λ x. x.valid) at ∙ ok',
              ap (λ x. x.refcnt == 0 && not x.dirty) at ∙ used',
            )
            | inr (inr (inl invalid)) ↦
                absurd (cc (sym ok ∙ ap (λ k. (buf_at s k).valid) e ∙ invalid))
            | inr (inr (inr unused)) ↦ absurd (cc (sym used ∙ ap (λ k. is_unused s k) e ∙ unused))
          ]
    ]
  ];
}
  where
    slot :
        (j : ℕ)
        → IsBuf j
        → ((j ≡ b) × (buf_at (put_buf s b w) j ≡ w))
          ⊎ ((j ≢ b) × (buf_at (put_buf s b w) j ≡ buf_at s j))
    slot j hj = put-slot s b j w a.size h hj

    dev_at : (j : ℕ) → IsBuf j → (buf_at (put_buf s b w) j).dev ≡ (buf_at s j).dev
    dev_at j hj = elim (slot j hj) [
      | inl (e, at) ↦ ap (λ x. x.dev) at ∙ same_dev ∙ ap (λ k. (buf_at s k).dev) (sym e)
      | inr (other, at) ↦ ap (λ x. x.dev) at
    ]

    block_at : (j : ℕ) → IsBuf j → (buf_at (put_buf s b w) j).blockno ≡ (buf_at s j).blockno
    block_at j hj = elim (slot j hj) [
      | inl (e, at) ↦ ap (λ x. x.blockno) at ∙ same_block ∙ ap (λ k. (buf_at s k).blockno) (sym e)
      | inr (other, at) ↦ ap (λ x. x.blockno) at
    ]
