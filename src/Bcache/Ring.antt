-- ===== src/Bcache/Ring.antt =====
-- The list of buffers of bio.c as a list of nodes, most recently used first.
use hyu_ele3021_os.Base.Words.{dec32}
use hyu_ele3021_os.Base.{
  ℕ, zero, suc, ◌+◌, ◌<◌, ◌≡◌, ◌≢◌, refl, sym, subst, true, none, some, List, [], ◌∷◌, ◌++◌, arith,
  ◌==◌, if◌then◌else◌, Bool-cases, inl, inr,
}
use hyu_ele3021_os.Bcache.{
  Bcache, Buf, Block, nbuf, update, put_first, unlink, link_all, binit, buf_at, put_buf, is_held,
  brelse,
}
use hyu_ele3021_os.Bcache.Links.{
  Out, Distinct, Links, Out-append, append-Out, Links-next, Links-prev, Links-append, Links-first,
  Links-last, Links-join, last_or, first_or,
}

-- The list goes through just these nodes, and back.
pub record Ring (s : Bcache) (xs : List ℕ) : Type 0 where
  pub links : Links s.next s.prev 0 xs 0
  pub distinct : Distinct xs
  pub no_head : Out 0 xs

Distinct-append :
    (xs : List ℕ) (b : ℕ) (ys : List ℕ)
    → Distinct (xs ++ b ∷ ys)
    → Distinct (xs ++ ys) × Out b (xs ++ ys)
Distinct-append [] b ys d = (d.1, d.0)
Distinct-append (x ∷ xs) b ys d =
    let (rest, out) = Distinct-append xs b ys d.1 in
    let (front, back) = Out-append x xs (b ∷ ys) d.0 in
    ((append-Out x xs ys front back.1, rest), (λ e. back.0 (sym e), out))

pub put_first-Ring :
    (b : ℕ) (s : Bcache) (xs : List ℕ)
    → Ring s xs
    → b ≢ 0
    → Out b xs
    → Ring (put_first b s) (b ∷ xs)
unfolding put_first
put_first-Ring b s [] r real out = record {
  links = ground (arith, r.links);
  distinct = (tt, tt);
  no_head = (λ e. real (sym e), tt);
}
put_first-Ring b s (x ∷ xs) r real out = record {
  links =
      let n1 = update s.next b (s.next 0) in
      let p1 = update s.prev b 0 in
      let back = r.links.2 in
      let kept = Links-next s.next s.prev x xs 0 b (s.next 0) out.0 out.1 back in
      let kept' = Links-prev n1 s.prev x xs 0 b 0 real out.1 kept in
      let kept2 = Links-prev n1 p1 x xs 0 x b (λ e. r.no_head.0 (sym e)) r.distinct.0 kept' in
      let kept3 = Links-next n1 (update p1 x b) x xs 0 0 b r.no_head.0 r.no_head.1 kept2 in
      let first : n1 0 ≡ x = ground (arith, r.links.0) in
      (
        ground arith,
        ground (arith, out.0),
        (
          ground (arith, r.links.0),
          ground (arith, first),
          subst (λ n. Links (update n1 0 b) (update p1 n b) x xs 0) (sym first) kept3,
        ),
      );
  distinct = (out, r.distinct);
  no_head = (λ e. real (sym e), r.no_head);
}

pub unlink-Ring :
    (b : ℕ) (s : Bcache) (xs ys : List ℕ) → Ring s (xs ++ b ∷ ys) → Ring (unlink b s) (xs ++ ys)
unfolding unlink
unlink-Ring b s xs ys r = record {
  links =
      subst (λ f. Links (update s.next (prev1 b) (s.next b)) f 0 (xs ++ ys) 0)
        (λ i. update s.prev (en i) (ep i))
        (subst (λ f. Links f (update s.prev n p) 0 (xs ++ ys) 0) (λ i. update s.next (ep1 i) (en i))
          (Links-join s.next s.prev 0 xs b ys 0 r.distinct r.no_head r.no_head r.links));
  distinct = (Distinct-append xs b ys r.distinct).0;
  no_head =
      let (front, back) = Out-append 0 xs (b ∷ ys) r.no_head in append-Out 0 xs ys front back.1;
}
  where
    n : ℕ
    n = first_or 0 ys

    p : ℕ
    p = last_or 0 xs

    prev1 : ℕ → ℕ
    prev1 = update s.prev (s.next b) (s.prev b)

    halves : Links s.next s.prev 0 xs b × Links s.next s.prev b ys 0
    halves = Links-append s.next s.prev 0 xs b ys 0 r.links

    en : n ≡ s.next b
    en = sym (Links-first s.next s.prev b ys 0 halves.1)

    ep : p ≡ s.prev b
    ep = sym (Links-last s.next s.prev 0 xs b halves.0)

    ep1 : p ≡ prev1 b
    ep1 = ground (arith, ep)

Distinct-front : (ys : List ℕ) (b : ℕ) (zs : List ℕ) → Distinct (ys ++ b ∷ zs) → Out b ys
Distinct-front [] b zs d = tt
Distinct-front (y ∷ ys) b zs d =
    (λ e. (Out-append y ys (b ∷ zs) d.0).1.0 (sym e), Distinct-front ys b zs d.1)

-- Changes of the buffers leave the list alone.
put_buf-Ring : (s : Bcache) (b : ℕ) (v : Buf) (xs : List ℕ) → Ring s xs → Ring (put_buf s b v) xs
put_buf-Ring s b v xs r = record { links = r.links; distinct = r.distinct; no_head = r.no_head }

-- The holder of a buffer can release it. That keeps the list, except that a buffer that nobody uses any
-- more goes to its front.
pub brelse-Ring :
    (s : Bcache) (pid b : ℕ) (xs ys : List ℕ)
    → Ring s (xs ++ b ∷ ys)
    → is_held s pid b ≡ true
    → (t : Bcache) × (brelse s pid b ≡ some t)
      × Ring t (if dec32 (buf_at s b).refcnt == 0 then b ∷ (xs ++ ys) else xs ++ b ∷ ys)
unfolding brelse
brelse-Ring s pid b xs ys r held = elim (Bool-cases (dec32 (buf_at s b).refcnt == 0)) [
  | inl last ↦
      let (rest, out) = Distinct-append xs b ys r.distinct in
      let real = (Out-append 0 xs (b ∷ ys) r.no_head).1.0 in
      (
        put_first b (unlink b s1),
        rw (held, last, brelse) refl,
        rw last (
            put_first-Ring b (unlink b s1) (xs ++ ys) (unlink-Ring b s1 xs ys kept)
              (λ e. real (sym e)) out),
      )
  | inr more ↦ (s1, rw (held, more, brelse) refl, rw more kept)
]
  where
    s1 : Bcache
    s1 = put_buf s b (record (buf_at s b) { holder = none; refcnt = dec32 (buf_at s b).refcnt })

    kept : Ring s1 (xs ++ b ∷ ys)
    kept = put_buf-Ring s b _ (xs ++ b ∷ ys) r

-- The nodes from `b + n - 1` down to `b`, in front of `xs`.
abbrev pub stacked : ℕ → ℕ → List ℕ → List ℕ
stacked zero b xs = xs
stacked (suc n) b xs = stacked n (b + 1) (b ∷ xs)

-- All nodes of a list are below `b`.
abbrev Below : ℕ → List ℕ → Type 0
Below b [] = Unit {0}
Below b (x ∷ xs) = (x < b) × Below b xs

Below-Out : (b : ℕ) (xs : List ℕ) → Below b xs → Out b xs
Below-Out b [] h = tt
Below-Out b (x ∷ xs) h = (λ e. omega (arith, h.0), Below-Out b xs h.1)

Below-next : (b : ℕ) (xs : List ℕ) → Below b xs → Below (b + 1) xs
Below-next b [] h = tt
Below-next b (x ∷ xs) h = (omega (arith, h.0), Below-next b xs h.1)

link_all-Ring :
    (n b : ℕ) (s : Bcache) (xs : List ℕ)
    → Ring s xs
    → 0 < b
    → Below b xs
    → Ring (link_all n b s) (stacked n b xs)
unfolding link_all
link_all-Ring zero b s xs r real low = r
link_all-Ring (suc n) b s xs r real low =
    link_all-Ring n (b + 1) (put_first b s) (b ∷ xs)
      (put_first-Ring b s xs r (λ e. omega arith) (Below-Out b xs low)) (omega arith)
      (omega arith, Below-next b xs low)

-- After `binit` the list has all buffers, the last one first.
pub binit-Ring : (disk : ℕ → Block) → Ring (binit disk) (stacked nbuf 1 [])
unfolding binit
binit-Ring disk =
    link_all-Ring nbuf 1 _ [] (record { links = (refl, refl); distinct = tt; no_head = tt })
      (omega arith) tt
