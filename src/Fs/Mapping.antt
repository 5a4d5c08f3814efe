-- ===== src/Fs/Mapping.antt =====
-- `bmap` of xv6-public/fs.c: a direct address and an entry of the indirect block, new or not.
use hyu_ele3021_os.Base.{
  ℕ, ◌+◌, ◌-◌, ◌*◌, ◌≤◌, ◌<◌, ◌≡◌, ◌≢◌, refl, sym, ◌∙◌, ap, subst, true, false, some, arith, ◌==◌,
  if◌then◌else◌, Bool-cases, inl, inr, length-set, get_or-set_self, get_or-set_ne,
}
use native.Mathlib.Decide.{ℕ_discrete}
use hyu_ele3021_os.Fs.{bsize, Disk, Superblock}
use hyu_ele3021_os.Fs.Bitmap.{used}
use hyu_ele3021_os.Fs.Balloc.{Allocates}
use hyu_ele3021_os.Fs.Free.{free, free-taken}
use hyu_ele3021_os.Fs.Slots.{
  slot, slot_direct, slot_indirect, slot_entry, slot-cases, Maps, byte, new-Maps, new-byte,
}
use hyu_ele3021_os.Fs.Inode.{ndirect, maxfile, Inode, word, addr, put_addr}

-- The number of the block that `addrs[i]` is.
abbrev pub place : ℕ → ℕ
place i = if i == ndirect then maxfile else i

-- The same contents, in a disk with at most `n` fewer free blocks; no block of the inode is given up.
pub record Same (sb : Superblock) (d : Disk) (ip : Inode) (n : ℕ) (d' : Disk) (ip' : Inode)
    : Type 0 where
  pub maps : Maps sb d' ip'
  pub bytes_same : (o : ℕ) → o < maxfile * bsize → byte d' ip' o ≡ byte d ip o
  pub spent : free sb d ≤ free sb d' + n
  pub size_same : ip'.size ≡ ip.size
  pub keeps : (j : ℕ) → j ≤ maxfile → slot d ip j ≢ 0 → slot d' ip' j ≢ 0

zero_word : (x : ℕ → ℕ) (i : ℕ) → ((j : ℕ) → x j ≡ 0) → word x i ≡ 0
zero_word x i h = omega (arith, h (4 * i), h (4 * i + 1), h (4 * i + 2), h (4 * i + 3))

-- A new block `n` for `addrs[i]`.
module _ (sb : Superblock) (d d' : Disk) (ip : Inode) (i n : ℕ) (m : Maps sb d ip)
    (al : Allocates sb d (some (d', n))) (h : i ≤ ndirect) (none_ : addr ip i ≡ 0) where
  abbrev pub ip' : Inode
  ip' = put_addr ip i n

  pub addr_self : (j : ℕ) → j ≡ i → addr ip' j ≡ n
  addr_self j e = ap (λ x. addr ip' x) e ∙ get_or-set_self ip.addrs i n 0 (omega (arith, m.room))

  addr_ne : (j : ℕ) → j ≢ i → addr ip' j ≡ addr ip j
  addr_ne j e = get_or-set_ne ip.addrs i j n 0 (λ s. e (sym s))

  -- The inode's blocks are neither the new one nor one of the map.
  kept : (j : ℕ) → j ≤ maxfile → slot d ip j ≢ 0 → d' (slot d ip j) ≡ d (slot d ip j)
  kept j low real =
      al.5 (slot d ip j) (λ e. absurd (cc (sym (m.owned j low real).1 ∙ ap (used sb d) e ∙ al.1)))
        (λ e. (m.owned j low real).2 n al.0 (sym e))

  pub real_n : n ≢ 0
  real_n e = absurd (cc (sym m.boot ∙ ap (used sb d) (sym e) ∙ al.1))

  addr_if : (j : ℕ) → addr ip' j ≡ (if j == i then n else addr ip j)
  addr_if j = elim (ℕ_discrete j i) [
    | yes e ↦
        let t : (j == i) ≡ true = ground (arith, e) in
        addr_self j e ∙ sym (ap (λ b. if b then n else addr ip j) t)
    | no o ↦
        let t : (j == i) ≡ false = ground (arith, o) in
        addr_ne j o ∙ sym (ap (λ b. if b then n else addr ip j) t)
  ]

  -- The entries of the indirect block.
  entry :
      (w : ℕ)
      → (if addr ip' ndirect == 0 then 0 else word (d' (addr ip' ndirect)) w)
        ≡ (if addr ip ndirect == 0 then 0 else word (d (addr ip ndirect)) w)
  entry w = elim (ℕ_discrete ndirect i) [
    | yes e ↦
        let real : (n == 0) ≡ false = ground (arith, real_n) in
        let old : addr ip ndirect ≡ 0 = ap (addr ip) e ∙ none_ in
        ap (λ a. if a == 0 then 0 else word (d' a) w) (addr_self ndirect e)
        ∙ ap (λ b. if b then 0 else word (d' n) w) real
        ∙ zero_word (d' n) w al.4
        ∙ sym (ap (λ a. if a == 0 then 0 else word (d a) w) old)
    | no o ↦
        ap (λ a. if a == 0 then 0 else word (d' a) w) (addr_ne ndirect o)
        ∙ (elim (Bool-cases (addr ip ndirect == 0)) [
          | inl z ↦ rw z refl
          | inr real ↦
              let at : slot d ip maxfile ≡ addr ip ndirect = slot_indirect d ip maxfile refl in
              let same : d' (addr ip ndirect) ≡ d (addr ip ndirect) =
                subst (λ a. d' a ≡ d a) at
                  (kept maxfile (omega arith) (λ z. ground (arith, at, z, real))) in
              ap (λ x. if addr ip ndirect == 0 then 0 else word x w) same
        ])
  ]

  slots : (j : ℕ) → j ≤ maxfile → slot d' ip' j ≡ (if j == place i then n else slot d ip j)
  slots j low = elim (slot-cases j low) [
    | inl direct ↦
        let test : (j == i) ≡ (j == place i) = ground (arith, direct, h) in
        slot_direct d' ip' j direct
        ∙ addr_if j
        ∙ ap (λ t. if t then n else addr ip j) test
        ∙ ap (λ x. if j == place i then n else x) (sym (slot_direct d ip j direct))
    | inr (inl last) ↦
        let test : (ndirect == i) ≡ (j == place i) = ground (arith, last, h) in
        slot_indirect d' ip' j last
        ∙ addr_if ndirect
        ∙ ap (λ t. if t then n else addr ip ndirect) test
        ∙ ap (λ x. if j == place i then n else x) (sym (slot_indirect d ip j last))
    | inr (inr (low', high)) ↦
        let test : (j == place i) ≡ false = ground (arith, low', high, h) in
        slot_entry d' ip' j low' high
        ∙ entry (j - ndirect)
        ∙ sym (slot_entry d ip j low' high)
        ∙ sym (ap (λ t. if t then n else slot d ip j) test)
  ]

  was : slot d ip (place i) ≡ 0
  was = elim (ℕ_discrete i ndirect) [
    | yes e ↦
        let test : place i ≡ maxfile = ground (arith, e) in
        slot_indirect d ip (place i) test ∙ ap (addr ip) (sym e) ∙ none_
    | no other ↦
        let test : place i ≡ i = ground (arith, other) in
        ap (slot d ip) test ∙ slot_direct d ip i (omega (arith, other)) ∙ none_
  ]

  slots_kept : (j : ℕ) → j ≤ maxfile → slot d ip j ≢ 0 → slot d' ip' j ≢ 0
  slots_kept j low real z = elim (Bool-cases (j == place i)) [
    | inl new ↦ real_n (sym (slots j low ∙ ap (λ t. if t then n else slot d ip j) new) ∙ z)
    | inr old ↦ real (sym (slots j low ∙ ap (λ t. if t then n else slot d ip j) old) ∙ z)
  ]

  pub addr-Same : Same sb d ip 1 d' ip'
  addr-Same = record {
    maps =
        new-Maps sb d d' ip ip' (place i) n m al.0 al.1 al.3 slots (length-set ip.addrs i n)
          (λ j low. kept j (omega (arith, low)));
    bytes_same = λ o low.
        new-byte sb d d' ip ip' (place i) n m al.0 al.1 al.3 slots (length-set ip.addrs i n)
          (λ j low'. kept j (omega (arith, low'))) o low was (λ _. al.4);
    spent = omega (arith, free-taken sb d d' n al.0 al.1 al.3);
    size_same = refl;
    keeps = slots_kept;
  }
