-- ===== src/Fs/ReadLoop.antt =====
-- The loop of `readi` of xv6-public/fs.c on the contents of an inode.
use hyu_ele3021_os.Base.{
  ℕ, zero, suc, ◌+◌, ◌-◌, ◌*◌, ◌/◌, ◌%◌, ◌≤◌, ◌<◌, ◌≡◌, ◌≢◌, refl, sym, ◌∙◌, ap, true, false, some,
  List, [], ◌∷◌, ◌++◌, arith, ◌==◌, if◌then◌else◌, Bool-cases, inl, inr,
}
use hyu_ele3021_os.Fs.{bsize, Disk, Superblock}
use hyu_ele3021_os.Fs.Slots.{slot, byte}
use hyu_ele3021_os.Fs.Inode.{maxfile, Inode, bmap, part, bytes, read_loop}
use hyu_ele3021_os.Fs.Bmap.{bmap-there}
use hyu_ele3021_os.Fs.WriteLoop.{Backed, part-bounds}

-- The `n` bytes of the contents from `off` on.
abbrev pub contents : Disk → Inode → ℕ → ℕ → List ℕ
contents d ip off zero = []
contents d ip off (suc n) = byte d ip off ∷ contents d ip (off + 1) n

contents-append :
    (d : Disk) (ip : Inode) (m n off : ℕ)
    → contents d ip off m ++ contents d ip (off + m) n ≡ contents d ip off (m + n)
contents-append d ip zero n off = λ i. contents d ip (at i) (all i)
  where
    at : off + 0 ≡ off
    at = omega arith

    all : n ≡ 0 + n
    all = omega arith
contents-append d ip (suc m) n off =
    ap (λ k. byte d ip off ∷ (contents d ip (off + 1) m ++ contents d ip k n)) shift
    ∙ ap (λ l. byte d ip off ∷ l) (contents-append d ip m n (off + 1))
    ∙ ap (contents d ip off) count
  where
    shift : off + suc m ≡ off + 1 + m
    shift = omega arith

    count : suc (m + n) ≡ suc m + n
    count = omega arith

first_byte :
    (d : Disk) (ip : Inode) (bn off : ℕ)
    → off / bsize ≡ bn
    → slot d ip bn ≢ 0
    → d (slot d ip bn) (off % bsize) ≡ byte d ip off
first_byte d ip bn off at real =
    let r : (slot d ip bn == 0) ≡ false = ground (arith, real) in
    sym (
      ap (λ k. if slot d ip k == 0 then 0 else d (slot d ip k) (off % bsize)) at
      ∙ ap (λ b. if b then 0 else d (slot d ip bn) (off % bsize)) r)

-- The bytes of one block.
bytes-contents :
    (d : Disk) (ip : Inode) (bn n off : ℕ)
    → off / bsize ≡ bn
    → n ≤ bsize - off % bsize
    → slot d ip bn ≢ 0
    → bytes (d (slot d ip bn)) (off % bsize) n ≡ contents d ip off n
bytes-contents d ip bn zero off at fits real = refl
bytes-contents d ip bn (suc zero) off at fits real =
    ap (λ x. x ∷ []) (first_byte d ip bn off at real)
bytes-contents d ip bn (suc (suc n)) off at fits real =
    let next : (off + 1) / bsize ≡ bn = omega (arith, at, fits) in
    let step : off % bsize + 1 ≡ (off + 1) % bsize = omega (arith, fits) in
    let rest = bytes-contents d ip bn (suc n) (off + 1) next (omega (arith, fits)) real in
    (λ i.
      first_byte d ip bn off at real i
      ∷ (ap (λ o. bytes (d (slot d ip bn)) o (suc n)) step ∙ rest) i)

read_loop-round :
    (k : ℕ) (sb : Superblock) (d : Disk) (ip : Inode) (off left : ℕ) (d1 : Disk) (ip1 : Inode)
    (a : ℕ) (d2 : Disk) (ip2 : Inode) (rest : List ℕ)
    → (left == 0) ≡ false
    → bmap sb d ip (off / bsize) ≡ some (d1, ip1, a)
    → read_loop k sb d1 ip1 (off + part left off) (left - part left off) ≡ some (d2, ip2, rest)
    → read_loop (suc k) sb d ip off left
      ≡ some (d2, ip2, bytes (d1 a) (off % bsize) (part left off) ++ rest)
unfolding read_loop
read_loop-round k sb d ip off left d1 ip1 a d2 ip2 rest more e run =
    rw (more, read_loop, e, run) refl

-- Bytes in blocks that the inode has are read, and nothing changes.
pub read_loop-contents :
    (k : ℕ) (sb : Superblock) (d : Disk) (ip : Inode) (off left : ℕ)
    → left ≤ k
    → off + left ≤ maxfile * bsize
    → Backed d ip off left
    → read_loop k sb d ip off left ≡ some (d, ip, contents d ip off left)
unfolding read_loop
read_loop-contents zero sb d ip off left few fits backed =
    let none_ : left ≡ 0 = omega arith in
    let done : (left == 0) ≡ true = ground (arith, few) in
    rw done (ap (λ n. some (d, ip, contents d ip off n)) (sym none_))
read_loop-contents (suc k) sb d ip off left few fits backed = elim (Bool-cases (left == 0)) [
  | inl done ↦
      let none_ : left ≡ 0 = ground (arith, done) in
      rw (done, read_loop) (ap (λ n. some (d, ip, contents d ip off n)) (sym none_))
  | inr more ↦
      let some_ : 0 < left = ground (arith, more) in
      let n = part left off in
      let (pos, short, in_block, less) = part-bounds left off some_ in
      let bn = off / bsize in
      let real : slot d ip bn ≢ 0 = backed off (omega arith) (omega (arith, some_)) in
      let got = bmap-there sb d ip bn (omega (arith, fits, some_)) real in
      let run =
        read_loop-contents k sb d ip (off + n) (left - n) (omega (arith, few, pos, short))
          (omega (arith, fits, short))
          (λ o from to. backed o (omega (arith, from)) (omega (arith, to, short))) in
      let all : n + (left - n) ≡ left = omega (arith, short) in
      read_loop-round k sb d ip off left d ip (slot d ip bn) d ip
        (contents d ip (off + n) (left - n)) more got run
      ∙ ap (λ l. some (d, ip, l ++ contents d ip (off + n) (left - n)))
          (bytes-contents d ip bn n off refl in_block real)
      ∙ ap (λ l. some (d, ip, l))
          (contents-append d ip n (left - n) off ∙ ap (contents d ip off) all)
]
