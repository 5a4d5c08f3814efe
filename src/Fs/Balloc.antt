-- ===== src/Fs/Balloc.antt =====
-- `balloc` and `bfree` of xv6-public/fs.c on the set of used blocks.
use hyu_ele3021_os.Base.{
  ℕ, zero, suc, ◌+◌, ◌-◌, ◌/◌, ◌%◌, ◌≤◌, ◌<◌, ◌≡◌, ◌≢◌, refl, sym, ◌∙◌, ap, subst, true, false,
  Option, none, some, arith, ◌==◌, ltb, if◌then◌else◌, Bool-cases, Option-cases, inl, inr,
}
use hyu_ele3021_os.Fs.{bpb, Block, Disk, Superblock, bblock, put_block, put_byte}
use hyu_ele3021_os.Fs.Alloc.{bit, set_bit, bzero, scan_bits, mark, balloc_from, balloc}
use hyu_ele3021_os.Fs.Bitmap.{used, used-put_bit, set_bit-bit, put_bit}
use hyu_ele3021_os.Fs.Scan.{bit_at, Scanned, scan_bits-Scanned}

used-at :
    (sb : Superblock) (d : Disk) (b j : ℕ)
    → b % bpb ≡ 0
    → j < bpb
    → used sb d (b + j) ≡ bit_at (d (bblock sb b)) j
used-at sb d b j start low = λ i. bit (d (block i) (at i)) (bit_no i)
  where
    block : bblock sb (b + j) ≡ bblock sb b
    block = omega arith

    at : (b + j) % bpb / 8 ≡ j / 8
    at = omega arith

    bit_no : (b + j) % 8 ≡ j % 8
    bit_no = omega arith

mark-put_bit :
    (sb : Superblock) (d : Disk) (b j : ℕ)
    → b % bpb ≡ 0
    → j < bpb
    → mark sb d b j ≡ put_bit set_bit true set_bit-bit sb d (b + j)
mark-put_bit sb d b j start low = λ i.
    put_block d (block i) (put_byte (d (block i)) (at i) (set_bit (d (block i) (at i)) (bit_no i)))
  where
    block : bblock sb b ≡ bblock sb (b + j)
    block = omega arith

    at : j / 8 ≡ (b + j) % bpb / 8
    at = omega arith

    bit_no : j % 8 ≡ (b + j) % bpb % 8
    bit_no = omega arith

-- The blocks of the map are used themselves.
abbrev pub MapUsed : Superblock → Disk → Type 0
MapUsed sb d = (c : ℕ) → c < sb.size → used sb d (bblock sb c) ≡ true

-- What an answer of `balloc` means: the first block that is not used is used from now on and zeroed,
-- and nothing else changes; the panic means that there is none.
abbrev pub Allocates : Superblock → Disk → Option (Disk × ℕ) → Type 0
Allocates sb d none = (c : ℕ) → c < sb.size → used sb d c ≡ true
Allocates sb d (some (d', b)) =
    (b < sb.size)
    × (used sb d b ≡ false)
    × ((c : ℕ) → c < b → used sb d c ≡ true)
    × ((c : ℕ) → c < sb.size → used sb d' c ≡ (if c == b then true else used sb d c))
    × ((i : ℕ) → d' b i ≡ 0)
    × ((n : ℕ) → n ≢ b → n ≢ bblock sb b → d' n ≡ d n)

abbrev marked : Superblock → Disk → ℕ → Disk
marked sb d n = put_bit set_bit true set_bit-bit sb d n

-- To mark a block that is not used, and to zero it.
marked-Allocates :
    (sb : Superblock) (d : Disk) (n : ℕ)
    → MapUsed sb d
    → n < sb.size
    → used sb d n ≡ false
    → ((c : ℕ) → c < n → used sb d c ≡ true)
    → Allocates sb d (some (bzero (marked sb d n) n, n))
unfolding bzero
marked-Allocates sb d n map_ inside free first = (
  inside,
  free,
  first,
  λ c low. used_at c low ∙ used-put_bit set_bit true set_bit-bit sb d n c,
  λ i. let self : (n == n) ≡ true = ground arith in rw self refl,
  λ m other away.
      let o : (m == n) ≡ false = ground (arith, other) in
      let a : (m == bblock sb n) ≡ false = ground (arith, away) in rw (o, a) refl,
)
  where
    used_at :
        (c : ℕ) → c < sb.size → used sb (bzero (marked sb d n) n) c ≡ used sb (marked sb d n) c
    used_at c low = elim (Bool-cases (bblock sb c == n)) [
      | inl same ↦
          let e : bblock sb c ≡ n = ground (arith, same) in
          absurd (cc (sym (map_ c low) ∙ ap (used sb d) e ∙ free))
      | inr other ↦ rw other refl
    ]

balloc_from-Allocates :
    (k : ℕ) (sb : Superblock) (d : Disk) (b : ℕ)
    → MapUsed sb d
    → b % bpb ≡ 0
    → sb.size < k + b
    → ((c : ℕ) → c < b → c < sb.size → used sb d c ≡ true)
    → Allocates sb d (balloc_from k sb d b)
unfolding balloc_from
balloc_from-Allocates zero sb d b map_ start enough before = λ c low. before c (omega arith) low
balloc_from-Allocates (suc k) sb d b map_ start enough before = elim (Bool-cases (ltb b sb.size)) [
  | inr over ↦
      let e : balloc_from (suc k) sb d b ≡ none = rw (over, balloc_from) refl in
      subst (Allocates sb d) (sym e) (λ c low. before c (ground (arith, over)) low)
  | inl inside ↦ elim (Option-cases (scan_bits (bpb + 1) sb.size x b 0)) [
    | inl full ↦
        let e : balloc_from (suc k) sb d b ≡ balloc_from k sb d (b + bpb) =
          rw (inside, full, balloc_from) refl in
        subst (Allocates sb d) (sym e) (
          balloc_from-Allocates k sb d (b + bpb) map_ (omega arith) (omega arith) (λ c low high.
            elim (Bool-cases (ltb c b)) [
              | inl here ↦ before c (ground (arith, here)) high
              | inr there ↦
                  passed c bpb (ground (arith, there)) low (omega arith)
                    (λ i short inside'.
                      subst (Scanned sb.size x b 0) full scanned i (omega arith) short inside')
                    high
            ]))
    | inr (j, found) ↦
        let e : balloc_from (suc k) sb d b ≡ some (bzero (mark sb d b j) (b + j), b + j) =
          rw (inside, found, balloc_from) refl in
        subst (Allocates sb d) (sym e) (
          let (low, short, room, free, first) = subst (Scanned sb.size x b 0) found scanned in
          subst (λ m. Allocates sb d (some (bzero m (b + j), b + j)))
            (sym (mark-put_bit sb d b j start short))
            (marked-Allocates sb d (b + j) map_ room (used-at sb d b j start short ∙ free)
              (λ c below. elim (Bool-cases (ltb c b)) [
                | inl here ↦ before c (ground (arith, here)) (omega arith)
                | inr there ↦
                    passed c j (ground (arith, there)) below (omega arith)
                      (λ i short' inside'. first i (omega arith) short') (omega arith)
              ])))
  ]
]
  where
    x : Block
    x = d (bblock sb b)

    scanned : Scanned sb.size x b 0 (scan_bits (bpb + 1) sb.size x b 0)
    scanned = scan_bits-Scanned (bpb + 1) sb.size x b 0 (omega arith)

    -- A block of this part of the map that the scan passed.
    passed :
        (c j : ℕ)
        → b ≤ c
        → c < b + j
        → j ≤ bpb
        → ((i : ℕ) → i < j → b + i < sb.size → bit_at x i ≡ true)
        → c < sb.size
        → used sb d c ≡ true
    passed c j low high short on inside =
        subst (λ c'. used sb d c' ≡ true) (omega arith)
          (used-at sb d b (c - b) start (omega arith) ∙ on (c - b) (omega arith) (omega arith))

-- `balloc` gives the first block that the map does not have as used, marks it in the map, fills it with
-- zeros, and changes no other block and no other bit of the map; it panics just when all blocks are
-- used. This is where the map has its own blocks as used.
pub balloc-Allocates : (sb : Superblock) (d : Disk) → MapUsed sb d → Allocates sb d (balloc sb d)
unfolding balloc
balloc-Allocates sb d map_ =
    balloc_from-Allocates (sb.size + 1) sb d 0 map_ refl (omega arith)
      (λ c none_ low. absurd (omega arith))
