-- ===== src/Fs/Contents.antt =====
-- `writei` and `readi` of xv6-public/fs.c together.
use hyu_ele3021_os.Base.Words.{add32, at_least}
use hyu_ele3021_os.Base.{
  ℕ, suc, ◌+◌, ◌-◌, ◌*◌, ◌≤◌, ◌<◌, ◌≡◌, refl, sym, ◌∙◌, ap, true, false, ◌&&◌, ◌||◌, some, List, [],
  ◌∷◌, arith, ltb, if◌then◌else◌, Bool-cases, inl, inr, get_or, length,
}
use hyu_ele3021_os.CString.{◌>>=◌}
use hyu_ele3021_os.Fs.{bsize, Disk, Superblock}
use hyu_ele3021_os.Fs.Free.{free}
use hyu_ele3021_os.Fs.Slots.{Maps, byte}
use hyu_ele3021_os.Fs.Inode.{maxfile, Inode, write_loop, read_loop, write_contents, readi}
use hyu_ele3021_os.Log.{Log, logsize}
use hyu_ele3021_os.Fs.Logged.{writei, writei_logs, writei_logs-few, log_all, log_all-some}
use hyu_ele3021_os.Fs.WriteLoop.{need, Backed, inside, Written, write_loop-Written}
use hyu_ele3021_os.Fs.ReadLoop.{contents, read_loop-contents}

-- `writei` grows the file to the end of what it writes.
abbrev pub grown : Inode → ℕ → ℕ
grown ip end = if ltb ip.size end then end else ip.size

resized-Maps :
    (sb : Superblock) (d : Disk) (ip : Inode) (n : ℕ)
    → Maps sb d ip
    → Maps sb d (record ip { size = n })
resized-Maps sb d ip n m = record {
  room = m.room;
  small = m.small;
  map_used = m.map_used;
  map_inside = m.map_inside;
  boot = m.boot;
  owned = m.owned;
  distinct = m.distinct;
}

contents-src :
    (d : Disk) (ip : Inode) (src : List ℕ) (off : ℕ)
    → ((j : ℕ) → j < length src → byte d ip (off + j) ≡ get_or src j 0)
    → contents d ip off (length src) ≡ src
contents-src d ip [] off h = refl
contents-src d ip (c ∷ src) off h =
    let first : byte d ip off ≡ c = ap (byte d ip) (zero_more off) ∙ h 0 (omega arith) in
    let rest =
      contents-src d ip src (off + 1)
        (λ j low. ap (byte d ip) (one_more off j) ∙ h (suc j) (omega arith)) in
    λ i. first i ∷ rest i
  where
    zero_more : (o : ℕ) → o ≡ o + 0
    zero_more o = omega arith

    one_more : (o j : ℕ) → o + 1 + j ≡ o + suc j
    one_more o j = omega arith

write_contents-round :
    (sb : Superblock) (d : Disk) (ip : Inode) (src : List ℕ) (off n : ℕ) (d' : Disk) (ip1 : Inode)
    → ((ltb ip.size off || ltb (add32 off n) off) || ltb (maxfile * bsize) (add32 off n)) ≡ false
    → write_loop n sb d ip off src n ≡ some (d', ip1)
    → write_contents sb d ip src off n
      ≡ some (
        d',
        (if ltb 0 n && ltb ip.size (off + n) then record ip1 { size = off + n } else ip1),
        true,
      )
unfolding write_contents
write_contents-round sb d ip src off n d' ip1 ok run =
    ap
      (λ b.
        if b
        then some (d, ip, false)
        else (write_loop n sb d ip off src n >>= λ r. some (
          r.0,
          (if ltb 0 n && ltb ip.size (off + n) then record r.1 { size = off + n } else r.1),
          true,
        )))
      ok
    ∙ ap
        (λ o. o >>= λ r. some (
          r.0,
          (if ltb 0 n && ltb ip.size (off + n) then record r.1 { size = off + n } else r.1),
          true,
        ))
        run

readi-round :
    (sb : Superblock) (d : Disk) (ip : Inode) (off n : ℕ) (d' : Disk) (ip' : Inode) (l : List ℕ)
    → off + n ≤ ip.size
    → off + n ≤ maxfile * bsize
    → read_loop n sb d ip off n ≡ some (d', ip', l)
    → readi sb d ip off n ≡ some (d', ip', some l)
unfolding readi
readi-round sb d ip off n d' ip' l far fits run =
    let sum : add32 off n ≡ off + n = omega (arith, fits) in
    let ok : (ltb ip.size off || ltb (add32 off n) off) ≡ false = ground (arith, far, sum) in
    let short : ltb ip.size (add32 off n) ≡ false = ground (arith, far, sum) in
    rw (ok, readi, short, run) refl

writei-run :
    (lg lg1 : Log) (sb : Superblock) (d : Disk) (ip : Inode) (iblock : ℕ) (src : List ℕ) (off n : ℕ)
    (d1 : Disk) (ip1 : Inode)
    → log_all lg (writei_logs sb d ip iblock src off n) ≡ some lg1
    → write_contents sb d ip src off n ≡ some (d1, ip1, true)
    → writei lg sb d ip iblock src off n ≡ some (lg1, d1, ip1, true)
unfolding writei
writei-run lg lg1 sb d ip iblock src off n d1 ip1 logged wrote =
    ap (λ o. o >>= λ lg'. write_contents sb d ip src off n >>= λ r. some (lg', r.0, r.1, r.2))
      logged
    ∙ ap (λ o. o >>= λ r. some (lg1, r.0, r.1, r.2)) wrote

far_lem : (ip ip1 : Inode) (end : ℕ) → ip1.size ≡ grown ip end → end ≤ ip1.size
far_lem ip ip1 end e = elim (Bool-cases (ltb ip.size end)) [
  | inl y ↦ omega (arith, e, ap (λ b. if b then end else ip.size) y)
  | inr o ↦
      let le : end ≤ ip.size = ground (arith, o) in
      omega (arith, e, le, ap (λ b. if b then end else ip.size) o)
]

write_contents-Written :
    (sb : Superblock) (d : Disk) (ip : Inode) (src : List ℕ) (off n : ℕ)
    → Maps sb d ip
    → off ≤ ip.size
    → off + n ≤ maxfile * bsize
    → need off n ≤ free sb d
    → (d' : Disk) × (ip' : Inode) × (write_contents sb d ip src off n ≡ some (d', ip', true))
      × Maps sb d' ip'
      × (ip'.size ≡ grown ip (off + n))
      × (free sb d ≤ free sb d' + need off n)
      × Written d ip off src n d' ip'
      × Backed d' ip' off n
unfolding write_contents
write_contents-Written sb d ip src off n m start fits room =
    let (d', ip1, run, m1, size1, spent, w, backed, keeps) =
      write_loop-Written n sb d ip off src n m (omega arith) fits room in
    let whole : add32 off n ≡ off + n = omega (arith, fits) in
    let ok : ((ltb ip.size off || ltb (add32 off n) off) || ltb (maxfile * bsize) (add32 off n))
        ≡ false =
      ground (arith, start, fits, whole) in
    elim (Bool-cases (ltb 0 n && ltb ip.size (off + n))) [
      | inl grows ↦
          let e : ltb ip.size (off + n) ≡ true = ground (arith, grows) in
          (
            d',
            record ip1 { size = off + n },
            write_contents-round sb d ip src off n d' ip1 ok run
                ∙ ap (λ b. some (d', (if b then record ip1 { size = off + n } else ip1), true))
                    grows,
            resized-Maps sb d' ip1 (off + n) m1,
            sym (ap (λ b. if b then off + n else ip.size) e),
            spent,
            w,
            backed,
          )
      | inr stays ↦
          let e : ltb ip.size (off + n) ≡ false = ground (arith, stays, start) in
          (
            d',
            ip1,
            write_contents-round sb d ip src off n d' ip1 ok run
                ∙ ap (λ b. some (d', (if b then record ip1 { size = off + n } else ip1), true))
                    stays,
            m1,
            size1 ∙ sym (ap (λ b. if b then off + n else ip.size) e),
            spent,
            w,
            backed,
          )
    ]

-- A file reads back what was written to it. In an open call, `writei` of `src` at an offset within a
-- file that has its blocks to itself, up to the greatest file size, does not panic and writes all of
-- `src`, if the disk has two free blocks for each block that `src` touches (`need`), and the log has
-- room for 6 blocks for each of them and for the inode's, which LOGSIZE allows for four blocks at most.
-- The inode then still has its blocks to itself, the file reaches at least to the end of what is
-- written, every other byte of its contents is as before, and `readi` of the same range gives `src` and
-- changes neither disk nor inode.
pub readi-writei :
    (lg : Log) (sb : Superblock) (d : Disk) (ip : Inode) (iblock : ℕ) (src : List ℕ) (off : ℕ)
    → Maps sb d ip
    → off ≤ ip.size
    → off + length src ≤ maxfile * bsize
    → need off (length src) ≤ free sb d
    → at_least 1 lg.outstanding ≡ true
    → lg.n + (3 * need off (length src) + 1) ≤ logsize
    → lg.n + (3 * need off (length src) + 1) + 1 ≤ lg.size
    → (lg1 : Log) × (d1 : Disk) × (ip1 : Inode) × (writei lg sb d ip iblock src off (length src)
        ≡ some (lg1, d1, ip1, true))
      × Maps sb d1 ip1
      × (ip1.size ≡ grown ip (off + length src))
      × Written d ip off src (length src) d1 ip1
      × (readi sb d1 ip1 off (length src) ≡ some (d1, ip1, some src))
readi-writei lg sb d ip iblock src off m start fits room open_call log_room log_room' =
    let n = length src in
    let logs = writei_logs sb d ip iblock src off n in
    let few : length logs ≤ 3 * need off n + 1 = writei_logs-few sb d ip iblock src off n in
    let (lg1, logged, grows) =
      log_all-some lg logs open_call (omega (arith, few, log_room))
        (omega (arith, few, log_room')) in
    let (d1, ip1, wrote, m1, size1, spent, w, backed) =
      write_contents-Written sb d ip src off n m start fits room in
    let read = read_loop-contents n sb d1 ip1 off n (omega arith) fits backed in
    let all : contents d1 ip1 off n ≡ src = contents-src d1 ip1 src off (λ j low.
      let i : inside off n (off + j) ≡ true = ground (arith, low) in
      let k : off + j - off ≡ j = omega arith in
      w (off + j) (omega (arith, low, fits))
      ∙ ap (λ b. if b then get_or src (off + j - off) 0 else byte d ip (off + j)) i
      ∙ ap (λ x. get_or src x 0) k) in
    let far : off + n ≤ ip1.size = far_lem ip ip1 (off + n) size1 in
    (
      lg1,
      d1,
      ip1,
      writei-run lg lg1 sb d ip iblock src off n d1 ip1 logged wrote,
      m1,
      size1,
      w,
      readi-round sb d1 ip1 off n d1 ip1 (contents d1 ip1 off n) far fits read
          ∙ ap (λ l. some (d1, ip1, some l)) all,
    )
