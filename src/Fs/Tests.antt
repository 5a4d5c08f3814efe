-- ===== src/Fs/Tests.antt =====
-- Runs of the file system at concrete inputs: 20 blocks, the map in block 2, and blocks 0 to 10 used.
use hyu_ele3021_os.Base.{
  ℕ, zero, suc, ◌≤◌, ◌<◌, ◌≢◌, ◌∙◌, sym, Bool-cases, inl, inr, replicate, get_or-replicate, ◌≡◌,
  refl, ap, subst, Bool, true, false, ◌&&◌, none, some, List, [], ◌∷◌, arith, ◌==◌, if◌then◌else◌,
}
use hyu_ele3021_os.Fs.{Disk, Superblock, bblock}
use hyu_ele3021_os.Fs.Alloc.{balloc}
use hyu_ele3021_os.Fs.Bitmap.{used}
use hyu_ele3021_os.Fs.Balloc.{MapUsed, Allocates, balloc-Allocates}
use hyu_ele3021_os.Fs.Inode.{maxfile, Inode, addr, addr_or_new, bmap, readi}
use hyu_ele3021_os.Fs.Slots.{slot, slot_direct, slot_indirect, slot_entry, slot-cases, Maps}
use hyu_ele3021_os.Fs.WriteLoop.{Written}
use hyu_ele3021_os.Log.{Log, log_write, log_refuses}
use hyu_ele3021_os.Fs.Logged.{writei, writei_logs, loop_logs, bmap_logs, addr_logs, log_all}
use hyu_ele3021_os.Fs.Contents.{readi-writei}
use hyu_ele3021_os.Fs.Path.{dirsiz, name_of, Inodes, skipelem, skip_slashes, scan_elem, namex}
use hyu_ele3021_os.Fs.Namex.{namex-resolve}

abbrev sb0 : Superblock
sb0 = record { size = 20; ninodes = 8; inodestart = 3; bmapstart = 2 }

abbrev disk0 : Disk
disk0 n i = if n == 2 then (if i == 0 then 255 else (if i == 1 then 7 else 0)) else 9

disk0-MapUsed : MapUsed sb0 disk0
disk0-MapUsed c h =
    let e : 2 ≡ bblock sb0 c = omega arith in subst (λ n. used sb0 disk0 n ≡ true) e refl

balloc-Allocates_example : Allocates sb0 disk0 (balloc sb0 disk0)
balloc-Allocates_example = balloc-Allocates sb0 disk0 disk0-MapUsed

-- Inode 1 is the root, and has the directory "a", inode 2.
abbrev is_a : List ℕ → Bool
is_a [] = false
is_a (c ∷ []) = c == 97
is_a (c ∷ d ∷ e) = false

abbrev two_dirs : Inodes
two_dirs = record {
  root = 1;
  cwd = 2;
  is_dir = λ ip. true;
  may_search = λ ip. true;
  dirlookup = λ ip name. if (ip == 1) && is_a (name_of dirsiz name) then some 2 else none;
  dirlookup_name = λ ip a b e. ap (λ n. if (ip == 1) && is_a n then some 2 else none) e;
}

-- skipelem("///a//b", name)
skipelem_runs :
    skipelem (47 ∷ 47 ∷ 47 ∷ 97 ∷ 47 ∷ 47 ∷ 98 ∷ 0 ∷ []) (1 ∷ 2 ∷ 3 ∷ [])
    ≡ some (some (98 ∷ 0 ∷ []), 97 ∷ 0 ∷ 3 ∷ [])
unfolding skipelem skip_slashes scan_elem
skipelem_runs = refl

-- nameiparent("//a/b", name)
namex-resolve_example :
    (buf : List ℕ) × (namex two_dirs true (47 ∷ 47 ∷ 97 ∷ 47 ∷ 98 ∷ 0 ∷ []) (1 ∷ 2 ∷ [])
      ≡ some (some 2, buf))
    × (name_of dirsiz buf ≡ 98 ∷ [])
namex-resolve_example =
    namex-resolve two_dirs true (47 ∷ 47 ∷ 97 ∷ 47 ∷ 98 ∷ []) [] (1 ∷ 2 ∷ []) (ground arith)

-- A file of 3 bytes in block 5.
abbrev file0 : Inode
file0 = record { size = 3; addrs = 5 ∷ replicate 7 0 }

slot-file0 : (i : ℕ) → i ≤ maxfile → slot disk0 file0 i ≡ (if i == 0 then 5 else 0)
slot-file0 i h = elim (slot-cases i h) [
  | inl direct ↦ slot_direct disk0 file0 i direct ∙ addr_file0 i
  | inr (inl last) ↦ slot_indirect disk0 file0 i last ∙ ground (arith, last)
  | inr (inr (low, high)) ↦ slot_entry disk0 file0 i low high ∙ ground (arith, low)
]
  where
    addr_file0 : (i : ℕ) → addr file0 i ≡ (if i == 0 then 5 else 0)
    addr_file0 zero = refl
    addr_file0 (suc i) = get_or-replicate 7 i 0 ∙ ground arith

slot-first : (i : ℕ) → i ≤ maxfile → slot disk0 file0 i ≢ 0 → i ≡ 0
slot-first i h real = elim (Bool-cases (i == 0)) [
  | inl y ↦ ground (arith, y)
  | inr o ↦ absurd (real (slot-file0 i h ∙ ap (λ b. if b then 5 else 0) o))
]

file0-Maps : Maps sb0 disk0 file0
file0-Maps = record {
  room = refl;
  small = omega arith;
  map_used = disk0-MapUsed;
  map_inside = λ c low. omega (arith, low);
  boot = refl;
  owned = λ i h real.
      let first : 0 ≡ i = sym (slot-first i h real) in
      subst
        (λ j.
          (slot disk0 file0 j < 20)
          × (used sb0 disk0 (slot disk0 file0 j) ≡ true)
          × ((c : ℕ) → c < 20 → bblock sb0 c ≢ slot disk0 file0 j))
        first (omega arith, refl, λ c low e. omega (arith, low, e));
  distinct = λ i j hi hj real e. slot-first i hi real ∙ sym (slot-first j hj (λ z. real (e ∙ z)));
}

-- An open call, with nothing logged.
abbrev log0 : Log
log0 = record {
  start = 2;
  size = 30;
  outstanding = 1;
  committing = false;
  n = 0;
  block = replicate 30 0;
}

-- Two bytes are appended.
readi-writei_example :
    (lg1 : Log) × (d1 : Disk) × (ip1 : Inode) × (writei log0 sb0 disk0 file0 9 (70 ∷ 71 ∷ []) 3 2
      ≡ some (lg1, d1, ip1, true))
    × Maps sb0 d1 ip1
    × (ip1.size ≡ 5)
    × Written disk0 file0 3 (70 ∷ 71 ∷ []) 2 d1 ip1
    × (readi sb0 d1 ip1 3 2 ≡ some (d1, ip1, some (70 ∷ 71 ∷ [])))
readi-writei_example =
    readi-writei log0 sb0 disk0 file0 9 (70 ∷ 71 ∷ []) 3 file0-Maps (omega arith) (omega arith)
      (omega arith) refl (omega arith) (omega arith)

-- They log the data block and the inode's; in a log that is full the write panics.
append_logs : writei_logs sb0 disk0 file0 9 (70 ∷ 71 ∷ []) 3 2 ≡ 5 ∷ 9 ∷ []
unfolding writei_logs loop_logs bmap_logs addr_logs bmap addr_or_new
append_logs = refl

full_log_panics :
    log_all (record log0 { n = 29 }) (writei_logs sb0 disk0 file0 9 (70 ∷ 71 ∷ []) 3 2) ≡ none
unfolding writei_logs loop_logs bmap_logs addr_logs bmap addr_or_new log_all log_write log_refuses
full_log_panics = refl
