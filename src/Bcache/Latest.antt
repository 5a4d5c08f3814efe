-- ===== src/Bcache/Latest.antt =====
-- `bread` of bio.c gives the latest contents of a block.

use hyu_ele3021_os.Base.{
  ℕ, ◌+◌, ◌^◌, ◌<◌, ◌≡◌, refl, sym, ◌∙◌, ap, subst, true, false, none, some, List, [], ◌∷◌, arith,
  ◌==◌, Option-cases, inl, inr, ◌⊎◌,
}
use hyu_ele3021_os.Bcache.{
  Bcache, Block, holds_block, is_unused, is_held, buf_at, put_buf, bget, lock_buf, read_in, bread,
}
use hyu_ele3021_os.Bcache.Links.{Out, backwards, find, Out-append}
use hyu_ele3021_os.Bcache.View.{IsBuf, put_self}
use hyu_ele3021_os.Bcache.Recycle.{bget-get_from, get_from, hit, recycled}
use hyu_ele3021_os.Bcache.Listed.{
  Caches, Listed, find-hit, AllBufs-backwards, Got, bget-Got, find-miss,
}
use hyu_ele3021_os.Bcache.Iderw.{Has}
use hyu_ele3021_os.Bcache.Release.{lock-Caches}
use hyu_ele3021_os.Bcache.Refine.{Reach, Reach-Caches, read_in-Has}

-- The buffers that `bget` may choose for the block.
abbrev pub Candidate : Bcache → ℕ → ℕ → Type 0
Candidate s n j = (holds_block s 1 n j ≡ true) ⊎ (is_unused s j ≡ true)

backwards-Out : (b : ℕ) (xs : List ℕ) → Out b (backwards xs) → Out b xs
backwards-Out b [] h = tt
backwards-Out b (x ∷ xs) h =
    let (front, back) = Out-append b (backwards xs) (x ∷ []) h in (back.0, backwards-Out b xs front)

-- `bget` gives a buffer if there is one.
bget-some :
    (s : Bcache) (v : ℕ → Block) (c : Caches s v) (n k : ℕ)
    → IsBuf k
    → is_unused s k ≡ true
    → (t : Bcache) × (b : ℕ) × (bget s 1 n ≡ some (t, b))
      × Candidate s n b
      × ((buf_at t b).holder ≡ (buf_at s b).holder)
bget-some s v c n k hk unused = elim (Option-cases (find (holds_block s 1 n) xs)) [
  | inr (b, e) ↦
      let (h, has) = find-hit (holds_block s 1 n) xs l.within e in
      (
        put_buf s b (hit (buf_at s b)),
        b,
        search ∙ rw e refl,
        inl has,
        ap (λ x. x.holder) (put_self s b (hit (buf_at s b)) c.agrees.size h),
      )
  | inl e ↦ elim (Option-cases (find (is_unused s) (backwards xs))) [
    | inl e' ↦
        absurd
          (l.covers k hk (backwards-Out k xs (find-miss (is_unused s) (backwards xs) k e' unused)))
    | inr (b, e') ↦
        let (h, free) = find-hit (is_unused s) (backwards xs) (AllBufs-backwards xs l.within) e' in
        (
          put_buf s b (recycled 1 n (buf_at s b)),
          b,
          search ∙ rw (e, e') refl,
          inr free,
          ap (λ x. x.holder) (put_self s b (recycled 1 n (buf_at s b)) c.agrees.size h),
        )
  ]
]
  where
    l : Listed s
    l = c.listed

    xs : List ℕ
    xs = l.order

    search : bget s 1 n ≡ get_from s xs 1 n
    search = bget-get_from s xs 1 n l.ring l.rounds

-- `bread` after `bget` chose a buffer that nobody holds.
bread-rest :
    (size : ℕ) (s1 : Bcache) (v : ℕ → Block) (pid b : ℕ)
    → Caches s1 v
    → IsBuf b
    → (buf_at s1 b).dev ≡ 1
    → (buf_at s1 b).blockno < size
    → (buf_at s1 b).holder ≡ none
    → (s2 : Bcache) × (t : Bcache) × (lock_buf s1 pid b ≡ some s2)
      × (read_in size s2 pid b ≡ some t)
      × Has t v pid b (buf_at s1 b).blockno
unfolding lock_buf
bread-rest size s1 v pid b c h dev low free =
    let w = record (buf_at s1 b) { holder = some pid } in
    let s2 = put_buf s1 b w in
    let self : buf_at s2 b ≡ w = put_self s1 b w c.agrees.size h in
    let (t, e, has) = read_in-Has size s2 v pid b (lock-Caches s1 v b (some pid) c h) h (
      ap (λ x. elim x.holder [ none ↦ false | some p ↦ p == pid ]) self ∙ ground arith,
      ap (λ x. x.dev) self ∙ dev,
      subst (λ x. x.blockno < size) (sym self) low,
    ) in
    (s2, t, rw (free, lock_buf) refl, e, subst (Has t v pid b) (ap (λ x. x.blockno) self) has)

bread-by :
    (size : ℕ) (s s1 s2 t : Bcache) (pid n b : ℕ)
    → bget s 1 n ≡ some (s1, b)
    → lock_buf s1 pid b ≡ some s2
    → read_in size s2 pid b ≡ some t
    → bread size s pid n ≡ some (t, b)
unfolding bread
bread-by size s s1 s2 t pid n b e e' e'' =
    ap
      (λ o. elim o [
        | none ↦ none
        | some (x, c) ↦ elim (lock_buf x pid c) [
          | none ↦ none
          | some y ↦ elim (read_in size y pid c) [ none ↦ none | some z ↦ some (z, c) ]
        ]
      ])
      e
    ∙ ap
        (λ o. elim o [
          | none ↦ none
          | some y ↦ elim (read_in size y pid b) [ none ↦ none | some z ↦ some (z, b) ]
        ])
        e'
    ∙ ap (λ o. elim o [ none ↦ none | some z ↦ some (z, b) ]) e''

-- In every state that the kernel's steps reach, a process can read any block of the disk, as long as
-- some buffer is unused and nobody holds a buffer that `bget` may choose: it gets a buffer, locked,
-- with the block's latest contents, which is what the last holder left there, whether or not the disk
-- has it.
pub bread-latest :
    (size : ℕ) (disk : ℕ → Block) (s : Bcache) (v : ℕ → Block) (pid n k : ℕ)
    → Reach size disk s v
    → n < size
    → IsBuf k
    → is_unused s k ≡ true
    → ((j : ℕ)
        → Candidate s n j
        → ((buf_at s j).holder ≡ none) × ((buf_at s j).refcnt + 1 < 2 ^ 32))
    → (t : Bcache) × (b : ℕ) × (bread size s pid n ≡ some (t, b))
      × ((buf_at t b).block ≡ v n)
      × (is_held t pid b ≡ true)
bread-latest size disk s v pid n k reach low hk unused free =
    let c = Reach-Caches size disk s v reach in
    let (s1, b, e, choice, same) = bget-some s v c n k hk unused in
    let (idle, few) = free b choice in
    let (c1, h, dev, is) = subst (Got s v n) e (bget-Got s v n c) few in
    let (s2, t, locked, read, has) =
      bread-rest size s1 v pid b c1 h dev (subst (λ m. m < size) (sym is) low) (same ∙ idle) in
    (t, b, bread-by size s s1 s2 t pid n b e locked read, has.3 ∙ ap v is, has.4)
