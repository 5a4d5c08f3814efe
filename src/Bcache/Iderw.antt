-- ===== src/Bcache/Iderw.antt =====
-- `iderw` of memide.c and the functions of bio.c above it, on a cache that holds the blocks' contents.

use hyu_ele3021_os.Base.{
  ℕ, ◌<◌, ◌≡◌, ◌≢◌, refl, sym, ◌∙◌, ap, subst, true, false, none, some, arith, ◌==◌, leb,
  if◌then◌else◌, Bool-cases, inl, inr,
}
use hyu_ele3021_os.Bcache.{Bcache, Buf, Block, is_held, buf_at, put_buf, iderw}
use hyu_ele3021_os.Bcache.View.{IsBuf, Agrees, put-Agrees, put_self}
use hyu_ele3021_os.Bcache.Moves.{changed, change-Agrees}
use hyu_ele3021_os.Bcache.Listed.{Caches, same-Listed}

-- The buffer is locked and has the contents of block `n`.
abbrev pub Has : Bcache → (ℕ → Block) → ℕ → ℕ → ℕ → Type 0
Has t v pid b n =
    Caches t v
    × ((buf_at t b).valid ≡ true)
    × ((buf_at t b).blockno ≡ n)
    × ((buf_at t b).block ≡ v n)
    × (is_held t pid b ≡ true)

changed-same : (v : ℕ → Block) (n : ℕ) → changed v n (v n) ≡ v
changed-same v n = λ i m. at m i
  where
    at : (m : ℕ) → changed v n (v n) m ≡ v m
    at m = elim (Bool-cases (m == n)) [
      | inl same ↦ let e : m ≡ n = ground (arith, same) in rw same (ap v (sym e))
      | inr other ↦ rw other refl
    ]

-- The checks of `iderw` let a request for the disk through.
abbrev pub Request : ℕ → Bcache → ℕ → ℕ → Type 0
Request size s pid b =
    (is_held s pid b ≡ true) × ((buf_at s b).dev ≡ 1) × ((buf_at s b).blockno < size)

-- The block of an unread buffer is on the disk.
home_unread :
    (s : Bcache) (v : ℕ → Block) (b : ℕ)
    → Agrees s v
    → IsBuf b
    → (buf_at s b).dev ≡ 1
    → (buf_at s b).valid ≡ false
    → s.disk (buf_at s b).blockno ≡ v (buf_at s b).blockno
home_unread s v b a h dev bad = elim (a.home (buf_at s b).blockno) [
  | inl e ↦ e
  | inr (j, hj, d, is, ok, used) ↦
      absurd (cc (sym ok ∙ ap (λ k. (buf_at s k).valid) (a.unique j b hj h d dev is) ∙ bad))
]

-- A read.
pub iderw-read :
    (size : ℕ) (s : Bcache) (v : ℕ → Block) (pid b : ℕ)
    → Caches s v
    → IsBuf b
    → Request size s pid b
    → (buf_at s b).valid ≡ false
    → (t : Bcache) × (iderw size s pid b ≡ some t) × Has t v pid b (buf_at s b).blockno
unfolding iderw
iderw-read size s v pid b c h (held, dev, low) bad = (
  t,
  rw (held, bad, one, inside, clean) refl,
  (
    record { agrees = agrees; listed = same-Listed s t refl refl c.listed },
    ap (λ x. x.valid) self,
    ap (λ x. x.blockno) self,
    ap (λ x. x.block) self ∙ home,
    ap (λ x. elim x.holder [ none ↦ false | some p ↦ p == pid ]) self ∙ held,
  ),
)
  where
    a : Agrees s v
    a = c.agrees

    w : Buf
    w = record (buf_at s b) { block = s.disk (buf_at s b).blockno; valid = true }

    t : Bcache
    t = put_buf s b w

    self : buf_at t b ≡ w
    self = put_self s b w a.size h

    one : ((buf_at s b).dev == 1) ≡ true
    one = ground (arith, dev)

    inside : leb size (buf_at s b).blockno ≡ false
    inside = ground (arith, low)

    clean : (buf_at s b).dirty ≡ false
    clean = elim (Bool-cases (buf_at s b).dirty) [
      | inl d ↦ absurd (cc (sym (a.read_first b h d) ∙ bad))
      | inr d ↦ d
    ]

    home : s.disk (buf_at s b).blockno ≡ v (buf_at s b).blockno
    home = home_unread s v b a h dev bad

    agrees : Agrees t v
    agrees = put-Agrees s v b w a h refl refl (λ d ok. home) (λ d. refl) (inl home)

-- A write.
pub iderw-write :
    (size : ℕ) (s : Bcache) (v : ℕ → Block) (pid b : ℕ)
    → Caches s v
    → IsBuf b
    → Request size s pid b
    → (buf_at s b).dirty ≡ true
    → (t : Bcache) × (iderw size s pid b ≡ some t) × Has t v pid b (buf_at s b).blockno
unfolding iderw
iderw-write size s v pid b c h (held, dev, low) dirty = (
  t,
  rw (held, read, one, inside, dirty) refl,
  (
    record { agrees = agrees; listed = same-Listed s t refl refl c.listed },
    ap (λ x. x.valid) self,
    ap (λ x. x.blockno) self,
    ap (λ x. x.block) self ∙ has,
    ap (λ x. elim x.holder [ none ↦ false | some p ↦ p == pid ]) self ∙ held,
  ),
)
  where
    a : Agrees s v
    a = c.agrees

    n : ℕ
    n = (buf_at s b).blockno

    w : Buf
    w = record (buf_at s b) { dirty = false; valid = true }

    disk : ℕ → Block
    disk m = if m == n then (buf_at s b).block else s.disk m

    t : Bcache
    t = record (put_buf s b w) { disk = disk }

    self : buf_at t b ≡ w
    self = put_self s b w a.size h

    one : ((buf_at s b).dev == 1) ≡ true
    one = ground (arith, dev)

    inside : leb size n ≡ false
    inside = ground (arith, low)

    read : (buf_at s b).valid ≡ true
    read = a.read_first b h dirty

    has : (buf_at s b).block ≡ v n
    has = a.cached b h dev read

    elsewhere : (m : ℕ) → m ≢ n → disk m ≡ s.disk m
    elsewhere m away = let test : (m == n) ≡ false = ground (arith, away) in rw test refl

    saved : disk n ≡ (buf_at s b).block
    saved = let test : (n == n) ≡ true = ground arith in rw test refl

    agrees : Agrees t v
    agrees =
        subst (Agrees t) (ap (changed v n) has ∙ changed-same v n)
          (change-Agrees s v b w disk a h refl refl dev refl elsewhere (inl saved))
