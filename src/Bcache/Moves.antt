-- ===== src/Bcache/Moves.antt =====
-- What recycling, changing and writing a buffer of bio.c do to the contents of the blocks.
use hyu_ele3021_os.Base.{
  ℕ, ◌-◌, ◌≡◌, ◌≢◌, refl, sym, ◌∙◌, ap, true, false, not, ◌&&◌, arith, ◌==◌, length-set,
  if◌then◌else◌, inl, inr, ◌⊎◌,
}
use native.Mathlib.Decide.{ℕ_discrete}
use hyu_ele3021_os.Bcache.{Bcache, Buf, Block, is_unused, buf_at, put_buf}
use hyu_ele3021_os.Bcache.Recycle.{recycled}
use hyu_ele3021_os.Bcache.View.{IsBuf, Agrees, put-slot}

-- The contents `v` with block `n` changed.
abbrev pub changed : (ℕ → Block) → ℕ → Block → ℕ → Block
changed v n x m = if m == n then x else v m

pub recycle-Agrees :
    (s : Bcache) (v : ℕ → Block) (b n : ℕ)
    → Agrees s v
    → IsBuf b
    → is_unused s b ≡ true
    → ((j : ℕ) → IsBuf j → (buf_at s j).dev ≡ 1 → (buf_at s j).blockno ≢ n)
    → Agrees (put_buf s b (recycled 1 n (buf_at s b))) v
recycle-Agrees s v b n a h unused absent = record {
  size = length-set s.buf (b - 1) w ∙ a.size;
  unique = λ i j hi hj di dj e. elim (slot i hi) [
    | inl (ei, ai) ↦ elim (slot j hj) [
      | inl (ej, aj) ↦ ei ∙ sym ej
      | inr (oj, aj) ↦ absurd (
          absent j hj (sym (ap (λ x. x.dev) aj) ∙ dj)
            (sym (ap (λ x. x.blockno) aj) ∙ sym e ∙ ap (λ x. x.blockno) ai))
    ]
    | inr (oi, ai) ↦ elim (slot j hj) [
      | inl (ej, aj) ↦ absurd (
          absent i hi (sym (ap (λ x. x.dev) ai) ∙ di)
            (sym (ap (λ x. x.blockno) ai) ∙ e ∙ ap (λ x. x.blockno) aj))
      | inr (oj, aj) ↦
          a.unique i j hi hj (sym (ap (λ x. x.dev) ai) ∙ di) (sym (ap (λ x. x.dev) aj) ∙ dj)
            (sym (ap (λ x. x.blockno) ai) ∙ e ∙ ap (λ x. x.blockno) aj)
    ]
  ];
  cached = λ j hj d ok. elim (slot j hj) [
    | inl (e, at) ↦ absurd (cc (sym ok ∙ ap (λ x. x.valid) at))
    | inr (other, at) ↦
        ap (λ x. x.block) at
        ∙ a.cached j hj (sym (ap (λ x. x.dev) at) ∙ d) (sym (ap (λ x. x.valid) at) ∙ ok)
        ∙ ap (λ x. v x.blockno) (sym at)
  ];
  read_first = λ j hj d. elim (slot j hj) [
    | inl (e, at) ↦ absurd (cc (sym d ∙ ap (λ x. x.dirty) at))
    | inr (other, at) ↦ ap (λ x. x.valid) at ∙ a.read_first j hj (sym (ap (λ x. x.dirty) at) ∙ d)
  ];
  home = λ m. elim (a.home m) [
    | inl e ↦ inl e
    | inr (j, hj, d, is, ok, used) ↦ elim (slot j hj) [
      | inl (e, at) ↦ absurd (cc (sym used ∙ ap (λ k. is_unused s k) e ∙ unused))
      | inr (other, at) ↦ inr (
        j,
        hj,
        ap (λ x. x.dev) at ∙ d,
        ap (λ x. x.blockno) at ∙ is,
        ap (λ x. x.valid) at ∙ ok,
        ap (λ x. x.refcnt == 0 && not x.dirty) at ∙ used,
      )
    ]
  ];
}
  where
    w : Buf
    w = recycled 1 n (buf_at s b)

    slot :
        (j : ℕ)
        → IsBuf j
        → ((j ≡ b) × (buf_at (put_buf s b w) j ≡ w))
          ⊎ ((j ≢ b) × (buf_at (put_buf s b w) j ≡ buf_at s j))
    slot j hj = put-slot s b j w a.size h hj

-- New contents for one block in its buffer, and perhaps on the disk.
module _ (s : Bcache) (v : ℕ → Block) (b : ℕ) (w : Buf) (disk : ℕ → Block) (a : Agrees s v)
    (h : IsBuf b) (dev : w.dev ≡ (buf_at s b).dev) (is : w.blockno ≡ (buf_at s b).blockno)
    (one : (buf_at s b).dev ≡ 1) (read : w.valid ≡ true)
    (elsewhere : (m : ℕ) → m ≢ w.blockno → disk m ≡ s.disk m)
    (saved : (disk w.blockno ≡ w.block) ⊎ ((w.refcnt == 0 && not w.dirty) ≡ false)) where
  slot :
      (j : ℕ)
      → IsBuf j
      → ((j ≡ b) × (buf_at (put_buf s b w) j ≡ w))
        ⊎ ((j ≢ b) × (buf_at (put_buf s b w) j ≡ buf_at s j))
  slot j hj = put-slot s b j w a.size h hj

  slot_dev : (j : ℕ) → IsBuf j → (buf_at (put_buf s b w) j).dev ≡ (buf_at s j).dev
  slot_dev j hj = elim (slot j hj) [
    | inl (e, at) ↦ ap (λ x. x.dev) at ∙ dev ∙ ap (λ k. (buf_at s k).dev) (sym e)
    | inr (other, at) ↦ ap (λ x. x.dev) at
  ]

  slot_block : (j : ℕ) → IsBuf j → (buf_at (put_buf s b w) j).blockno ≡ (buf_at s j).blockno
  slot_block j hj = elim (slot j hj) [
    | inl (e, at) ↦ ap (λ x. x.blockno) at ∙ is ∙ ap (λ k. (buf_at s k).blockno) (sym e)
    | inr (other, at) ↦ ap (λ x. x.blockno) at
  ]

  -- Another buffer has another block.
  other_block : (j : ℕ) → IsBuf j → j ≢ b → (buf_at s j).dev ≡ 1 → (buf_at s j).blockno ≢ w.blockno
  other_block j hj other d e = other (a.unique j b hj h d one (e ∙ is))

  changed_self : (m : ℕ) → m ≡ w.blockno → changed v w.blockno w.block m ≡ w.block
  changed_self m e = let test : (m == w.blockno) ≡ true = ground arith in rw test refl

  changed_ne : (m : ℕ) → m ≢ w.blockno → changed v w.blockno w.block m ≡ v m
  changed_ne m e = let test : (m == w.blockno) ≡ false = ground arith in rw test refl

  pub change-Agrees : Agrees (record (put_buf s b w) { disk = disk }) (changed v w.blockno w.block)
  change-Agrees = record {
    size = length-set s.buf (b - 1) w ∙ a.size;
    unique = λ i j hi hj di dj e.
        a.unique i j hi hj (sym (slot_dev i hi) ∙ di) (sym (slot_dev j hj) ∙ dj)
          (sym (slot_block i hi) ∙ e ∙ slot_block j hj);
    cached = λ j hj d ok. elim (slot j hj) [
      | inl (e, at) ↦ ap (λ x. x.block) at ∙ sym (changed_self _ (ap (λ x. x.blockno) at))
      | inr (other, at) ↦
          let d' = sym (ap (λ x. x.dev) at) ∙ d in
          ap (λ x. x.block) at
          ∙ a.cached j hj d' (sym (ap (λ x. x.valid) at) ∙ ok)
          ∙ sym (changed_ne _ (other_block j hj other d'))
          ∙ ap (λ x. changed v w.blockno w.block x.blockno) (sym at)
    ];
    read_first = λ j hj d. elim (slot j hj) [
      | inl (e, at) ↦ ap (λ x. x.valid) at ∙ read
      | inr (other, at) ↦ ap (λ x. x.valid) at ∙ a.read_first j hj (sym (ap (λ x. x.dirty) at) ∙ d)
    ];
    home = λ m. elim (ℕ_discrete m w.blockno) [
      | yes here ↦ elim saved [
        | inl e ↦ inl (ap disk here ∙ e ∙ sym (changed_self m here))
        | inr used ↦ elim (slot b h) [
          | inl (_, at) ↦ inr (
            b,
            h,
            ap (λ x. x.dev) at ∙ dev ∙ one,
            ap (λ x. x.blockno) at ∙ sym here,
            ap (λ x. x.valid) at ∙ read,
            ap (λ x. x.refcnt == 0 && not x.dirty) at ∙ used,
          )
          | inr (other, at) ↦ absurd (other refl)
        ]
      ]
      | no away ↦ elim (a.home m) [
        | inl e ↦ inl (elsewhere m away ∙ e ∙ sym (changed_ne m away))
        | inr (j, hj, d, has, ok, used) ↦ elim (slot j hj) [
          | inl (e, at) ↦ absurd (away (sym has ∙ ap (λ k. (buf_at s k).blockno) e ∙ sym is))
          | inr (other, at) ↦ inr (
            j,
            hj,
            ap (λ x. x.dev) at ∙ d,
            ap (λ x. x.blockno) at ∙ has,
            ap (λ x. x.valid) at ∙ ok,
            ap (λ x. x.refcnt == 0 && not x.dirty) at ∙ used,
          )
        ]
      ]
    ];
  }
