-- ===== src/Bcache/Start.antt =====
-- The cache after `binit` of bio.c.
use hyu_ele3021_os.Base.{
  ℕ, zero, suc, ◌+◌, ◌-◌, ◌≤◌, ◌<◌, ◌≡◌, refl, sym, ◌∙◌, ap, List, [], ◌∷◌, arith, length, get_or,
  get_or-replicate, inl,
}
use hyu_ele3021_os.Bcache.{Bcache, Block, nbuf, zero_buf, buf_at, link_all, put_first, binit}
use hyu_ele3021_os.Bcache.Links.{Out}
use hyu_ele3021_os.Bcache.Ring.{binit-Ring, stacked}
use hyu_ele3021_os.Bcache.Listed.{Caches}

link_all-buf :
    (n b : ℕ) (s : Bcache) → ((link_all n b s).buf ≡ s.buf) × ((link_all n b s).disk ≡ s.disk)
unfolding link_all put_first
link_all-buf zero b s = (refl, refl)
link_all-buf (suc n) b s = link_all-buf n (b + 1) (put_first b s)

binit-buf : (disk : ℕ → Block) (b : ℕ) → buf_at (binit disk) b ≡ zero_buf
unfolding binit
binit-buf disk b =
    ap (λ l. get_or l (b - 1) zero_buf) (link_all-buf nbuf 1 _).0
    ∙ get_or-replicate nbuf (b - 1) zero_buf

binit-disk : (disk : ℕ → Block) → (binit disk).disk ≡ disk
unfolding binit
binit-disk disk = (link_all-buf nbuf 1 _).1

binit-size : (disk : ℕ → Block) → length (binit disk).buf ≡ nbuf
unfolding binit
binit-size disk = ap length (link_all-buf nbuf 1 _).0

stacked-Out :
    (n c b : ℕ) (xs : List ℕ) → Out b (stacked n c xs) → Out b xs × (c ≤ b → b < c + n → ⊥)
stacked-Out zero c b xs out = (out, λ low high. omega arith)
stacked-Out (suc n) c b xs out =
    let (rest, none_) = stacked-Out n (c + 1) b (c ∷ xs) out in
    (rest.1, λ low high. none_ (omega (arith, rest.0)) (omega arith))

pub binit-Caches : (disk : ℕ → Block) → Caches (binit disk) disk
binit-Caches disk = record {
  agrees = record {
    size = binit-size disk;
    unique = λ i j hi hj di dj e. absurd (omega (arith, di, ap (λ x. x.dev) (binit-buf disk i)));
    cached = λ b h d ok. absurd (omega (arith, d, ap (λ x. x.dev) (binit-buf disk b)));
    read_first = λ b h d. absurd (cc (sym d ∙ ap (λ x. x.dirty) (binit-buf disk b)));
    home = λ n. inl (ap (λ f. f n) (binit-disk disk));
  };
  listed = record {
    order = stacked nbuf 1 [];
    ring = binit-Ring disk;
    rounds = omega arith;
    within = ground arith;
    covers = λ b h out. (stacked-Out nbuf 1 b [] out).1 (omega (arith, h.0)) (omega (arith, h.1));
  };
}
