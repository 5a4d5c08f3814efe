-- ===== src/Bcache/Release.antt =====
-- Pinning, writing and releasing a buffer of bio.c keep the contents of the blocks.
use hyu_ele3021_os.Base.Words.{dec32}
use hyu_ele3021_os.Base.{
  ℕ, ◌<◌, ◌≡◌, refl, sym, ◌∙◌, ap, subst, true, false, Option, none, some, List, ◌∷◌, ◌++◌, arith,
  ◌==◌, length, length-append, if◌then◌else◌, Bool-cases, inl, inr, ◌⊎◌,
}
use mathlib.Core.Option.{some-injective}
use hyu_ele3021_os.Bcache.{
  Bcache, Buf, Block, is_unused, is_held, buf_at, put_buf, bwrite, brelse, put_first, unlink,
}
use hyu_ele3021_os.Bcache.Links.{Out, append-Out, Out-append}
use hyu_ele3021_os.Bcache.Ring.{Ring, brelse-Ring}
use hyu_ele3021_os.Bcache.View.{IsBuf, Agrees, Kept, put-Agrees, put_self}
use hyu_ele3021_os.Bcache.Listed.{
  Caches, Listed, same-Listed, AllBufs, split_at, append-AllBufs, AllBufs-append,
}
use hyu_ele3021_os.Bcache.Iderw.{Has, Request, iderw-write}

-- A change of the lock, the count and the pin.
keep-Caches :
    (s : Bcache) (v : ℕ → Block) (b : ℕ) (w : Buf)
    → Caches s v
    → IsBuf b
    → w.dev ≡ (buf_at s b).dev
    → w.blockno ≡ (buf_at s b).blockno
    → w.block ≡ (buf_at s b).block
    → w.valid ≡ (buf_at s b).valid
    → (w.dirty ≡ true → w.valid ≡ true)
    → Kept s v b w
    → Caches (put_buf s b w) v
keep-Caches s v b w c h dev is block ok first kept = record {
  agrees =
      put-Agrees s v b w c.agrees h dev is
        (λ d r. block ∙ c.agrees.cached b h (sym dev ∙ d) (sym ok ∙ r) ∙ ap v (sym is)) first kept;
  listed = same-Listed s _ refl refl c.listed;
}

-- A change of the lock alone.
pub lock-Caches :
    (s : Bcache) (v : ℕ → Block) (b : ℕ) (o : Option ℕ)
    → Caches s v
    → IsBuf b
    → Caches (put_buf s b (record (buf_at s b) { holder = o })) v
lock-Caches s v b o c h =
    keep-Caches s v b (record (buf_at s b) { holder = o }) c h refl refl refl refl
      (c.agrees.read_first b h)
      (elim (Bool-cases (is_unused s b)) [
        | inl unused ↦ inr (inr (inr unused))
        | inr used ↦ elim (Bool-cases (buf_at s b).valid) [
          | inl ok ↦ inr (inl (ok, used))
          | inr bad ↦ inr (inr (inl bad))
        ]
      ])

pub pin-Caches :
    (s : Bcache) (v : ℕ → Block) (b : ℕ)
    → Caches s v
    → IsBuf b
    → (buf_at s b).valid ≡ true
    → Caches (put_buf s b (record (buf_at s b) { dirty = true })) v
pin-Caches s v b c h ok =
    keep-Caches s v b (record (buf_at s b) { dirty = true }) c h refl refl refl refl (λ d. ok)
      (inr (inl (ok, ground arith)))

pub bwrite-Caches :
    (size : ℕ) (s : Bcache) (v : ℕ → Block) (pid b : ℕ)
    → Caches s v
    → IsBuf b
    → Request size s pid b
    → (buf_at s b).valid ≡ true
    → (t : Bcache) × (bwrite size s pid b ≡ some t) × Has t v pid b (buf_at s b).blockno
unfolding bwrite
bwrite-Caches size s v pid b c h r ok =
    let w = record (buf_at s b) { dirty = true } in
    let self : buf_at (put_buf s b w) b ≡ w = put_self s b w c.agrees.size h in
    let (t, e, has) =
      iderw-write size (put_buf s b w) v pid b (pin-Caches s v b c h ok) h
        (
          ap (λ x. elim x.holder [ none ↦ false | some p ↦ p == pid ]) self ∙ r.0,
          ap (λ x. x.dev) self ∙ r.1,
          subst (λ x. x.blockno < size) (sym self) r.2,
        )
        (ap (λ x. x.dirty) self) in
    (t, rw r.0 e, subst (Has t v pid b) (ap (λ x. x.blockno) self) has)

-- The list and the contents after a buffer goes to the front.
front-Agrees :
    (s : Bcache) (v : ℕ → Block) (b : ℕ) → Agrees s v → Agrees (put_first b (unlink b s)) v
unfolding put_first unlink
front-Agrees s v b a = record {
  size = a.size;
  unique = a.unique;
  cached = a.cached;
  read_first = a.read_first;
  home = a.home;
}

-- A list with a buffer at its front instead of its place.
front-Listed :
    (s t : Bcache) (l : Listed s) (xs ys : List ℕ) (b : ℕ)
    → l.order ≡ xs ++ b ∷ ys
    → Ring t (b ∷ (xs ++ ys))
    → Listed t
front-Listed s t l xs ys b at r =
    let within = append-AllBufs xs (b ∷ ys) (subst AllBufs at l.within) in
    record {
      order = b ∷ (xs ++ ys);
      ring = r;
      rounds =
          omega (arith, length-append xs ys, length-append xs (b ∷ ys), ap length at, l.rounds);
      within = (within.1.0, AllBufs-append xs ys within.0 within.1.1);
      covers = λ k hk out.
          let (front, back) = Out-append k xs ys out.1 in
          l.covers k hk (subst (Out k) (sym at) (append-Out k xs (b ∷ ys) front (out.0, back)));
    }

brelse-Listed :
    (s t : Bcache) (pid b : ℕ)
    → Listed s
    → IsBuf b
    → is_held s pid b ≡ true
    → brelse s pid b ≡ some t
    → Listed t
brelse-Listed s t pid b l h held e = elim (split_at b l.order) [
  | inl out ↦ absurd (l.covers b h out)
  | inr (xs, ys, at) ↦
      let (t', e', r) = brelse-Ring s pid b xs ys (subst (Ring s) at l.ring) held in
      let r' =
        subst
          (λ x. Ring x (if dec32 (buf_at s b).refcnt == 0 then b ∷ (xs ++ ys) else xs ++ b ∷ ys))
          (some-injective _ _ (sym e' ∙ e)) r in
      elim (Bool-cases (dec32 (buf_at s b).refcnt == 0)) [
        | inl last ↦ front-Listed s t l xs ys b at (rw last at r')
        | inr more ↦ record {
          order = l.order;
          ring = subst (Ring t) (sym at) (rw more at r');
          rounds = l.rounds;
          within = l.within;
          covers = l.covers;
        }
      ]
]

pub brelse-Caches :
    (s t : Bcache) (v : ℕ → Block) (pid b : ℕ)
    → Caches s v
    → IsBuf b
    → (buf_at s b).dev ≡ 1
    → is_held s pid b ≡ true
    → ((buf_at s b).dirty ≡ true) ⊎ (s.disk (buf_at s b).blockno ≡ (buf_at s b).block)
    → brelse s pid b ≡ some t
    → Caches t v
unfolding brelse
brelse-Caches s t v pid b c h dev held safe e = record {
  agrees = elim (Bool-cases (dec32 (buf_at s b).refcnt == 0)) [
    | inl last ↦
        subst (λ x. Agrees x v) (some-injective _ _ (rw (held, last) at e))
          (front-Agrees s1 v b kept)
    | inr more ↦ subst (λ x. Agrees x v) (some-injective _ _ (rw (held, more) at e)) kept
  ];
  listed = brelse-Listed s t pid b c.listed h held e;
}
  where
    w : Buf
    w = record (buf_at s b) { holder = none; refcnt = dec32 (buf_at s b).refcnt }

    s1 : Bcache
    s1 = put_buf s b w

    why : Kept s v b w
    why = elim (Bool-cases (buf_at s b).valid) [
      | inr bad ↦ inr (inr (inl bad))
      | inl ok ↦ elim safe [
        | inl dirty ↦ inr (inl (ok, ground (arith, dirty)))
        | inr saved ↦ inl (saved ∙ c.agrees.cached b h dev ok)
      ]
    ]

    kept : Agrees s1 v
    kept = (keep-Caches s v b w c h refl refl refl refl (c.agrees.read_first b h) why).agrees
