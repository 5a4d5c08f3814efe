-- ===== src/Bcache/Refine.antt =====
-- The cache of bio.c under any order of its functions: it stands for a disk that forgets nothing.

use hyu_ele3021_os.Base.{
  ℕ, ◌+◌, ◌^◌, ◌<◌, ◌≡◌, refl, sym, ◌∙◌, subst, true, some, arith, Bool-cases, Option-cases, inl,
  inr, ◌⊎◌,
}
use mathlib.Core.Option.{some-injective}
use hyu_ele3021_os.Bcache.{
  Bcache, Block, buf_at, put_buf, bget, lock_buf, read_in, bwrite, brelse, binit,
}
use hyu_ele3021_os.Bcache.View.{IsBuf}
use hyu_ele3021_os.Bcache.Moves.{changed, change-Agrees}
use hyu_ele3021_os.Bcache.Listed.{Caches, same-Listed, bget-Got, Got}
use hyu_ele3021_os.Bcache.Iderw.{Has, Request, iderw-read}
use hyu_ele3021_os.Bcache.Start.{binit-Caches}
use hyu_ele3021_os.Bcache.Release.{lock-Caches, pin-Caches, bwrite-Caches, brelse-Caches}

-- A step of the kernel on the cache, and what it means for the contents of the blocks. Only a holder
-- changes a buffer that `bread` gave; a buffer is released when its contents are on the disk, or when
-- `log_write` pinned it.
pub data Step (size : ℕ) (s : Bcache) (v : ℕ → Block) : Bcache → (ℕ → Block) → Type 0 where
  gets :
      (n b : ℕ) (t : Bcache)
      → bget s 1 n ≡ some (t, b)
      → (buf_at s b).refcnt + 1 < 2 ^ 32
      → Step size s v t v
  locks : (pid b : ℕ) (t : Bcache) → IsBuf b → lock_buf s pid b ≡ some t → Step size s v t v
  reads :
      (pid b : ℕ) (t : Bcache)
      → IsBuf b
      → Request size s pid b
      → read_in size s pid b ≡ some t
      → Step size s v t v
  changes :
      (pid b : ℕ) (x : Block)
      → IsBuf b
      → Request size s pid b
      → (buf_at s b).valid ≡ true
      → 0 < (buf_at s b).refcnt
      → Step size s v
          (put_buf s b (record (buf_at s b) { block = x }))
          (changed v (buf_at s b).blockno x)
  pins :
      (pid b : ℕ)
      → IsBuf b
      → Request size s pid b
      → (buf_at s b).valid ≡ true
      → Step size s v (put_buf s b (record (buf_at s b) { dirty = true })) v
  writes :
      (pid b : ℕ) (t : Bcache)
      → IsBuf b
      → Request size s pid b
      → (buf_at s b).valid ≡ true
      → bwrite size s pid b ≡ some t
      → Step size s v t v
  releases :
      (pid b : ℕ) (t : Bcache)
      → IsBuf b
      → Request size s pid b
      → ((buf_at s b).dirty ≡ true) ⊎ (s.disk (buf_at s b).blockno ≡ (buf_at s b).block)
      → brelse s pid b ≡ some t
      → Step size s v t v

pub data Reach (size : ℕ) (disk : ℕ → Block) : Bcache → (ℕ → Block) → Type 0 where
  start : Reach size disk (binit disk) disk
  then_ :
      {s t : Bcache} {v w : ℕ → Block}
      → Reach size disk s v
      → Step size s v t w
      → Reach size disk t w

lock_buf-Caches :
    (s t : Bcache) (v : ℕ → Block) (pid b : ℕ)
    → Caches s v
    → IsBuf b
    → lock_buf s pid b ≡ some t
    → Caches t v
unfolding lock_buf
lock_buf-Caches s t v pid b c h e = elim (Option-cases (buf_at s b).holder) [
  | inl free ↦
      subst (λ x. Caches x v) (some-injective _ _ (rw (free, lock_buf) at e))
        (lock-Caches s v b (some pid) c h)
  | inr (p, busy) ↦ absurd (cc (rw (busy, lock_buf) at e))
]

-- A locked buffer gets its block's contents.
pub read_in-Has :
    (size : ℕ) (s : Bcache) (v : ℕ → Block) (pid b : ℕ)
    → Caches s v
    → IsBuf b
    → Request size s pid b
    → (t : Bcache) × (read_in size s pid b ≡ some t) × Has t v pid b (buf_at s b).blockno
unfolding read_in
read_in-Has size s v pid b c h r = elim (Bool-cases (buf_at s b).valid) [
  | inl ok ↦ (s, rw ok refl, (c, ok, refl, c.agrees.cached b h r.1 ok, r.0))
  | inr bad ↦ let (t, e, has) = iderw-read size s v pid b c h r bad in (t, rw bad e, has)
]

Step-Caches :
    (size : ℕ) (s t : Bcache) (v w : ℕ → Block) → Caches s v → Step size s v t w → Caches t w
Step-Caches size s _ v _ c (gets n b t e few) = (subst (Got s v n) e (bget-Got s v n c) few).0
Step-Caches size s _ v _ c (locks pid b t h e) = lock_buf-Caches s t v pid b c h e
Step-Caches size s _ v _ c (reads pid b t h r e) =
    let (t', e', has) = read_in-Has size s v pid b c h r in
    subst (λ x. Caches x v) (some-injective _ _ (sym e' ∙ e)) has.0
Step-Caches size s _ v _ c (changes pid b x h r ok used) = record {
  agrees =
      change-Agrees s v b (record (buf_at s b) { block = x }) s.disk c.agrees h refl refl r.1 ok
        (λ m away. refl) (inr (ground arith));
  listed = same-Listed s _ refl refl c.listed;
}
Step-Caches size s _ v w c (pins pid b h r ok) = pin-Caches s v b c h ok
Step-Caches size s _ v _ c (writes pid b t h r ok e) =
    let (t', e', has) = bwrite-Caches size s v pid b c h r ok in
    subst (λ x. Caches x v) (some-injective _ _ (sym e' ∙ e)) has.0
Step-Caches size s _ v _ c (releases pid b t h r safe e) =
    brelse-Caches s t v pid b c h r.1 r.0 safe e

pub Reach-Caches :
    (size : ℕ) (disk : ℕ → Block) (s : Bcache) (v : ℕ → Block) → Reach size disk s v → Caches s v
Reach-Caches size disk _ _ start = binit-Caches disk
Reach-Caches size disk _ _ (then_ {s} {t} {v} {w} r step) =
    Step-Caches size s t v w (Reach-Caches size disk s v r) step
