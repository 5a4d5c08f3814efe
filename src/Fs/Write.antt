-- ===== src/Fs/Write.antt =====
-- Writing a block of an inode of xv6-public/fs.c, and the loop of `writei`.
use hyu_ele3021_os.Base.{
  ℕ, ◌-◌, ◌*◌, ◌/◌, ◌%◌, ◌≤◌, ◌<◌, ◌≡◌, ◌≢◌, refl, sym, ◌∙◌, ap, subst, true, false, arith, ◌==◌,
  ltb, if◌then◌else◌, Bool-cases, inl, inr, ◌⊎◌,
}
use hyu_ele3021_os.Fs.{bsize, bpb, Block, Disk, Superblock, bblock, put_block}
use hyu_ele3021_os.Fs.Alloc.{bit}
use hyu_ele3021_os.Fs.Bitmap.{used}
use hyu_ele3021_os.Fs.Free.{free, free-same}
use hyu_ele3021_os.Fs.Slots.{slot, slot_direct, slot_indirect, slot_entry, slot-cases, Maps, byte}
use hyu_ele3021_os.Fs.Inode.{ndirect, maxfile, Inode, word, addr}

-- New contents `x` for data block `bn`.
module _ (sb : Superblock) (d : Disk) (ip : Inode) (bn : ℕ) (x : Block) (m : Maps sb d ip)
    (h : bn < maxfile) (real : slot d ip bn ≢ 0) where
  abbrev pub written : Disk
  written = put_block d (slot d ip bn) x

  away : (a : ℕ) → a ≢ slot d ip bn → written a ≡ d a
  away a e =
      let t : (a == slot d ip bn) ≡ false = ground (arith, e) in ap (λ c. if c then x else d a) t

  used_same : (c : ℕ) → c < sb.size → used sb written c ≡ used sb d c
  used_same c low =
      ap (λ y. bit (y (c % bpb / 8)) (c % 8))
        (away (bblock sb c) ((m.owned bn (omega (arith, h)) real).2 c low))

  pub slot_same : (i : ℕ) → i ≤ maxfile → slot written ip i ≡ slot d ip i
  slot_same i low = elim (slot-cases i low) [
    | inl direct ↦ slot_direct written ip i direct ∙ sym (slot_direct d ip i direct)
    | inr (inl last) ↦ slot_indirect written ip i last ∙ sym (slot_indirect d ip i last)
    | inr (inr (low', high)) ↦
        slot_entry written ip i low' high
        ∙ (elim (Bool-cases (addr ip ndirect == 0)) [
          | inl z ↦ rw z refl
          | inr there ↦
              let at : slot d ip maxfile ≡ addr ip ndirect = slot_indirect d ip maxfile refl in
              let same : written (addr ip ndirect) ≡ d (addr ip ndirect) =
                away (addr ip ndirect) (λ e.
                  let twice : bn ≡ maxfile =
                    m.distinct bn maxfile (omega (arith, h)) (omega arith) real (sym e ∙ sym at) in
                  omega (arith, h, twice)) in
              ap (λ y. if addr ip ndirect == 0 then 0 else word y (i - ndirect)) same
        ])
        ∙ sym (slot_entry d ip i low' high)
  ]

  pub written-Maps : Maps sb written ip
  written-Maps = record {
    room = m.room;
    small = m.small;
    map_used = λ c low. used_same (bblock sb c) (m.map_inside c low) ∙ m.map_used c low;
    map_inside = m.map_inside;
    boot = elim (Bool-cases (ltb 0 sb.size)) [
      | inl some_ ↦ used_same 0 (ground (arith, some_)) ∙ m.boot
      | inr none_ ↦
          absurd (let o = m.owned bn (omega (arith, h)) real in ground (arith, none_, o.0))
    ];
    owned = λ i low r.
        let o = m.owned i low (λ z. r (slot_same i low ∙ z)) in
        subst
          (λ a.
            (a < sb.size) × (used sb written a ≡ true) × ((c : ℕ) → c < sb.size → bblock sb c ≢ a))
          (sym (slot_same i low)) (o.0, used_same (slot d ip i) o.0 ∙ o.1, o.2);
    distinct = λ i j hi hj r e.
        m.distinct i j hi hj (λ z. r (slot_same i hi ∙ z))
          (sym (slot_same i hi) ∙ e ∙ slot_same j hj);
  }

  pub written-free : free sb written ≡ free sb d
  written-free = free-same sb d written used_same

  pub written-byte :
      (o : ℕ)
      → o < maxfile * bsize
      → byte written ip o ≡ (if o / bsize == bn then x (o % bsize) else byte d ip o)
  written-byte o low =
      ap (λ a. if a == 0 then 0 else written a (o % bsize))
        (slot_same (o / bsize) (omega (arith, low)))
      ∙ (elim (Bool-cases (o / bsize == bn)) [
        | inl here ↦
            let e : o / bsize ≡ bn = ground (arith, here) in
            let r : (slot d ip bn == 0) ≡ false = ground (arith, real) in
            let self : (slot d ip bn == slot d ip bn) ≡ true = ground arith in
            ap (λ i. if slot d ip i == 0 then 0 else written (slot d ip i) (o % bsize)) e
            ∙ ap (λ c. if c then 0 else written (slot d ip bn) (o % bsize)) r
            ∙ ap (λ c. (if c then x else d (slot d ip bn)) (o % bsize)) self
            ∙ sym (ap (λ c. if c then x (o % bsize) else byte d ip o) here)
        | inr there ↦ elsewhere there (Bool-cases (slot d ip (o / bsize) == 0))
      ])
    where
      elsewhere :
          (o / bsize == bn) ≡ false
          → ((slot d ip (o / bsize) == 0) ≡ true) ⊎ ((slot d ip (o / bsize) == 0) ≡ false)
          → (if slot d ip (o / bsize) == 0 then 0 else written (slot d ip (o / bsize)) (o % bsize))
            ≡ (if o / bsize == bn then x (o % bsize) else byte d ip o)
      elsewhere there (inl z) =
          ap (λ c. if c then 0 else written (slot d ip (o / bsize)) (o % bsize)) z
          ∙ sym (
              ap (λ c. if c then x (o % bsize) else byte d ip o) there
              ∙ ap (λ c. if c then 0 else d (slot d ip (o / bsize)) (o % bsize)) z)
      elsewhere there (inr r) =
          ap (λ y. if slot d ip (o / bsize) == 0 then 0 else y (o % bsize))
            (away (slot d ip (o / bsize)) (λ e.
              let same : o / bsize ≡ bn =
                m.distinct (o / bsize) bn (omega (arith, low)) (omega (arith, h))
                  (λ z. ground (arith, r, z)) e in
              ground (arith, there, same)))
          ∙ sym (ap (λ c. if c then x (o % bsize) else byte d ip o) there)
