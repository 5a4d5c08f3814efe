-- ===== src/Bcache/Listed.antt =====
-- `bget` of bio.c on a cache whose list has every buffer and that holds the contents of the blocks.
use hyu_ele3021_os.Base.Words.{inc32}
use hyu_ele3021_os.Base.{
  ℕ, ◌+◌, ◌^◌, ◌≤◌, ◌<◌, ◌≡◌, ◌≢◌, refl, sym, ◌∙◌, ap, subst, Bool, true, Option, none, some, List,
  [], ◌∷◌, ◌++◌, arith, length, Bool-cases, Option-cases, inl, inr, ◌⊎◌,
}
use mathlib.Core.Option.{some-injective}
use native.Mathlib.Decide.{ℕ_discrete}
use hyu_ele3021_os.Bcache.{Bcache, Block, nbuf, holds_block, is_unused, buf_at, put_buf, bget}
use hyu_ele3021_os.Bcache.Links.{Out, Links, backwards, find}
use hyu_ele3021_os.Bcache.Ring.{Ring}
use hyu_ele3021_os.Bcache.Recycle.{bget-get_from, hit, recycled}
use hyu_ele3021_os.Bcache.View.{IsBuf, Agrees, put_self, put-Agrees}
use hyu_ele3021_os.Bcache.Moves.{recycle-Agrees}

abbrev pub AllBufs : List ℕ → Type 0
AllBufs [] = Unit {0}
AllBufs (x ∷ xs) = IsBuf x × AllBufs xs

-- The list of a cache has every buffer.
pub record Listed (s : Bcache) : Type 0 where
  pub order : List ℕ
  pub ring : Ring s order
  pub rounds : length order ≤ nbuf
  pub within : AllBufs order
  pub covers : (b : ℕ) → IsBuf b → Out b order → ⊥

pub AllBufs-append : (xs ys : List ℕ) → AllBufs xs → AllBufs ys → AllBufs (xs ++ ys)
AllBufs-append [] ys h h' = h'
AllBufs-append (x ∷ xs) ys h h' = (h.0, AllBufs-append xs ys h.1 h')

pub append-AllBufs : (xs ys : List ℕ) → AllBufs (xs ++ ys) → AllBufs xs × AllBufs ys
append-AllBufs [] ys h = (tt, h)
append-AllBufs (x ∷ xs) ys h = let (a, b) = append-AllBufs xs ys h.1 in ((h.0, a), b)

pub AllBufs-backwards : (xs : List ℕ) → AllBufs xs → AllBufs (backwards xs)
AllBufs-backwards [] h = tt
AllBufs-backwards (x ∷ xs) h =
    AllBufs-append (backwards xs) (x ∷ []) (AllBufs-backwards xs h.1) (h.0, tt)

pub find-hit :
    (test : ℕ → Bool) (xs : List ℕ) {b : ℕ}
    → AllBufs xs
    → find test xs ≡ some b
    → IsBuf b × (test b ≡ true)
find-hit test [] h e = absurd (cc)
find-hit test (x ∷ xs) {b} h e = elim (Bool-cases (test x)) [
  | inl yes_ ↦
      let same : x ≡ b = some-injective _ _ (rw yes_ at e) in
      (subst IsBuf same h.0, subst (λ n. test n ≡ true) same yes_)
  | inr no_ ↦ find-hit test xs h.1 (rw no_ at e)
]

pub find-miss :
    (test : ℕ → Bool) (xs : List ℕ) (b : ℕ) → find test xs ≡ none → test b ≡ true → Out b xs
find-miss test [] b e h = tt
find-miss test (x ∷ xs) b e h = elim (Bool-cases (test x)) [
  | inl yes_ ↦ absurd (cc (rw yes_ at e))
  | inr no_ ↦
      (λ same. absurd (cc (sym h ∙ ap test same ∙ no_)), find-miss test xs b (rw no_ at e) h)
]

pub split_at :
    (b : ℕ) (xs : List ℕ) → (Out b xs) ⊎ ((ys : List ℕ) × (zs : List ℕ) × (xs ≡ ys ++ b ∷ zs))
split_at b [] = inl tt
split_at b (x ∷ xs) = elim (ℕ_discrete b x) [
  | yes e ↦ inr ([], xs, ap (λ y. y ∷ xs) (sym e))
  | no other ↦ elim (split_at b xs) [
    | inl out ↦ inl (other, out)
    | inr (ys, zs, e) ↦ inr (x ∷ ys, zs, ap (λ l. x ∷ l) e)
  ]
]

-- The contents and the list together.
pub record Caches (s : Bcache) (v : ℕ → Block) : Type 0 where
  pub agrees : Agrees s v
  pub listed : Listed s

pub same-Listed : (s t : Bcache) → t.next ≡ s.next → t.prev ≡ s.prev → Listed s → Listed t
same-Listed s t en ep l = record {
  order = l.order;
  ring = record {
    links =
        subst (λ f. Links f t.prev 0 l.order 0) (sym en)
          (subst (λ f. Links s.next f 0 l.order 0) (sym ep) l.ring.links);
    distinct = l.ring.distinct;
    no_head = l.ring.no_head;
  };
  rounds = l.rounds;
  within = l.within;
  covers = l.covers;
}

-- What `bget` gives: the block's buffer, and the same contents.
abbrev pub Got : Bcache → (ℕ → Block) → ℕ → Option (Bcache × ℕ) → Type 0
Got s v n none = Unit {0}
Got s v n (some (t, b)) =
    (buf_at s b).refcnt + 1 < 2 ^ 32
    → Caches t v × IsBuf b × ((buf_at t b).dev ≡ 1) × ((buf_at t b).blockno ≡ n)

pub bget-Got : (s : Bcache) (v : ℕ → Block) (n : ℕ) → Caches s v → Got s v n (bget s 1 n)
bget-Got s v n c =
    subst (Got s v n) (sym (bget-get_from s xs 1 n l.ring l.rounds))
      (elim (Option-cases (find (holds_block s 1 n) xs)) [
        | inr (b, e) ↦
            let (h, has) = find-hit (holds_block s 1 n) xs l.within e in
            rw e (λ few. hits b h has few)
        | inl e ↦ elim (Option-cases (find (is_unused s) (backwards xs))) [
          | inl e' ↦ rw (e, e') tt
          | inr (b, e') ↦
              let (h, unused) =
                find-hit (is_unused s) (backwards xs) (AllBufs-backwards xs l.within) e' in
              rw (e, e')
                (λ few. recycles b h unused (λ j hj d is.
                  l.covers j hj (find-miss (holds_block s 1 n) xs j e (ground (arith, d, is)))))
        ]
      ])
  where
    l : Listed s
    l = c.listed

    xs : List ℕ
    xs = l.order

    hits :
        (b : ℕ)
        → IsBuf b
        → holds_block s 1 n b ≡ true
        → (buf_at s b).refcnt + 1 < 2 ^ 32
        → Caches (put_buf s b (hit (buf_at s b))) v
          × IsBuf b
          × ((buf_at (put_buf s b (hit (buf_at s b))) b).dev ≡ 1)
          × ((buf_at (put_buf s b (hit (buf_at s b))) b).blockno ≡ n)
    hits b h has few = (
      record {
        agrees =
            put-Agrees s v b (hit (buf_at s b)) c.agrees h refl refl (c.agrees.cached b h)
              (c.agrees.read_first b h)
              (elim (Bool-cases (buf_at s b).valid) [
                | inl ok ↦ inr (
                    inl (
                      ok,
                      let more : inc32 (buf_at s b).refcnt ≡ (buf_at s b).refcnt + 1 =
                            omega arith in
                          ground (arith, more),
                    ))
                | inr bad ↦ inr (inr (inl bad))
              ]);
        listed = same-Listed s _ refl refl l;
      },
      h,
      ap (λ x. x.dev) (put_self s b (hit (buf_at s b)) c.agrees.size h) ∙ dev,
      ap (λ x. x.blockno) (put_self s b (hit (buf_at s b)) c.agrees.size h) ∙ is,
    )
      where
        dev : (buf_at s b).dev ≡ 1
        dev = ground (arith, has)

        is : (buf_at s b).blockno ≡ n
        is = ground (arith, has)

    recycles :
        (b : ℕ)
        → IsBuf b
        → is_unused s b ≡ true
        → ((j : ℕ) → IsBuf j → (buf_at s j).dev ≡ 1 → (buf_at s j).blockno ≢ n)
        → Caches (put_buf s b (recycled 1 n (buf_at s b))) v
          × IsBuf b
          × ((buf_at (put_buf s b (recycled 1 n (buf_at s b))) b).dev ≡ 1)
          × ((buf_at (put_buf s b (recycled 1 n (buf_at s b))) b).blockno ≡ n)
    recycles b h unused absent = (
      record {
        agrees = recycle-Agrees s v b n c.agrees h unused absent;
        listed = same-Listed s _ refl refl l;
      },
      h,
      ap (λ x. x.dev) (put_self s b (recycled 1 n (buf_at s b)) c.agrees.size h),
      ap (λ x. x.blockno) (put_self s b (recycled 1 n (buf_at s b)) c.agrees.size h),
    )
