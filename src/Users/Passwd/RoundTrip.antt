-- ===== src/Users/Passwd/RoundTrip.antt =====
-- /passwd of xv6-public/sysfile.c: what `flushUsers` writes, `loadUsers` reads back.
use hyu_ele3021_os.Base.{
  ℕ, ◌+◌, ◌*◌, ◌≤◌, ◌<◌, ◌≡◌, refl, sym, ◌∙◌, ap, subst, true, false, some, List, [], ◌∷◌, ◌++◌,
  ◌==◌, ltb, arith, length, take, drop, replicate, Bool-cases, inl, inr,
}
use hyu_ele3021_os.CString.Laws.{Holds, IsText}
use hyu_ele3021_os.Users.{LTable, row, max_user, max_len}
use hyu_ele3021_os.Users.Login.{drop-replicate}
use hyu_ele3021_os.Users.Passwd.{
  dash, slash, load_loop, load_users, flush_users, flush_rows, buf_size,
}
use hyu_ele3021_os.Users.Passwd.Flush.{append_assoc, line, Fits, Rows, encode, flush_rows-encode}
use hyu_ele3021_os.Users.Passwd.Buffer.{Plain, buf_of, read_long, drop-Zeros, replicate-Zeros}
use hyu_ele3021_os.Users.Passwd.Load.{Field, Changed, load_loop-name, load_loop-password}

-- The rows from `idx` on are blank.
pub record Blank (lt : LTable) (idx : ℕ) : Type 0 where
  pub name_rows : length lt.usernames ≡ max_user
  pub password_rows : length lt.passwords ≡ max_user
  pub blank :
      (j : ℕ)
      → idx ≤ j
      → j < max_user
      → (row lt.usernames j ≡ replicate (max_len + 1) 0)
        × (row lt.passwords j ≡ replicate (max_len + 1) 0)

full-Holds :
    (r s : List ℕ)
    → IsText s
    → length s ≤ max_len
    → r ≡ s ++ drop (length s) (replicate (max_len + 1) 0)
    → Holds r s
full-Holds r s text short e =
    let (zeros, z) = drop-replicate (length s) (max_len + 1) (omega arith) in
    (text, zeros, e ∙ ap (λ l. s ++ l) z)

-- What the loop makes of one line.
load_line :
    (s t tail : List ℕ) (lt : LTable) (idx : ℕ)
    → idx < max_user
    → IsText s × Field dash s
    → IsText t × Field slash t
    → Fits s t
    → Blank lt idx
    → (lt' : LTable) × (load_loop (line s t ++ tail) lt idx false 0
        ≡ load_loop tail lt' (idx + 1) false 0)
      × Blank lt' (idx + 1)
      × Holds (row lt'.usernames idx) s
      × Holds (row lt'.passwords idx) t
      × Changed lt.usernames idx lt'.usernames
      × Changed lt.passwords idx lt'.passwords
load_line s t tail lt idx low hs ht fit b =
    let few : (idx == max_user) ≡ false = ground (arith, low) in
    let old = b.blank idx (omega arith) low in
    let (rows, run, ch, e) =
      load_loop-name s ((t ++ slash ∷ []) ++ tail) lt idx [] (replicate (max_len + 1) 0) few hs.1
        (omega (arith, fit.0)) old.0 (omega (arith, b.name_rows)) in
    let lt1 = record lt { usernames = rows } in
    let (rows', run', ch', e') =
      load_loop-password t tail lt1 idx [] (replicate (max_len + 1) 0) few ht.1
        (omega (arith, fit.1)) old.1 (omega (arith, b.password_rows)) in
    let name_part : line s t ++ tail ≡ s ++ dash ∷ ((t ++ slash ∷ []) ++ tail) =
      append_assoc (s ++ dash ∷ []) (t ++ slash ∷ []) tail
      ∙ append_assoc s (dash ∷ []) ((t ++ slash ∷ []) ++ tail) in
    (
      record lt1 { passwords = rows' },
      ap (λ l. load_loop l lt idx false 0) name_part
          ∙ run
          ∙ ap (λ l. load_loop l lt1 idx true 0) (append_assoc t (slash ∷ []) tail)
          ∙ run',
      record {
        name_rows = ch.0 ∙ b.name_rows;
        password_rows = ch'.0 ∙ b.password_rows;
        blank = λ j from to.
            let o = b.blank j (omega arith) to in
            (ch.1 j (λ same. omega arith) ∙ o.0, ch'.1 j (λ same. omega arith) ∙ o.1);
      },
      full-Holds (row rows idx) s hs.0 fit.0 e,
      full-Holds (row rows' idx) t ht.0 fit.1 e',
      ch,
      ch',
    )

Holds-row :
    (rows rows' : List (List ℕ)) (j : ℕ) (s : List ℕ)
    → row rows' j ≡ row rows j
    → Holds (row rows j) s
    → Holds (row rows' j) s
Holds-row rows rows' j s e h = subst (λ r. Holds r s) (sym e) h

load_lines :
    (us : List (List ℕ × List ℕ)) (idx : ℕ) (lt : LTable) (r : List ℕ)
    → idx + length us ≤ max_user
    → Plain us
    → Blank lt idx
    → (lt' : LTable) × (load_loop (encode us ++ 0 ∷ r) lt idx false 0 ≡ some lt')
      × (lt'.user_cnt ≡ idx + length us)
      × Rows lt' idx us
      × ((j : ℕ)
          → j < idx
          → (row lt'.usernames j ≡ row lt.usernames j) × (row lt'.passwords j ≡ row lt.passwords j))
unfolding load_loop
load_lines [] idx lt r room h b = elim (Bool-cases (idx == max_user)) [
  | inl full ↦ (record lt { user_cnt = idx }, rw full refl, omega arith, tt, λ j low. (refl, refl))
  | inr more ↦ (record lt { user_cnt = idx }, rw more refl, omega arith, tt, λ j low. (refl, refl))
]
load_lines (u ∷ us) idx lt r room h b =
    let (lt1, run, b1, hn, hp, cn, cp) =
      load_line u.0 u.1 (encode us ++ 0 ∷ r) lt idx (omega arith) h.0 h.1 h.2 b in
    let (lt2, run2, count, rows, frame) = load_lines us (idx + 1) lt1 r (omega arith) h.3 b1 in
    let here = frame idx (omega arith) in
    (
      lt2,
      ap (λ l. load_loop l lt idx false 0) (append_assoc (line u.0 u.1) (encode us) (0 ∷ r))
          ∙ run
          ∙ run2,
      omega (arith, count),
      (
        Holds-row lt1.usernames lt2.usernames idx u.0 here.0 hn,
        Holds-row lt1.passwords lt2.passwords idx u.1 here.1 hp,
        h.2,
        rows,
      ),
      λ j low.
          let f = frame j (omega arith) in
          (f.0 ∙ cn.1 j (λ same. omega arith), f.1 ∙ cp.1 j (λ same. omega arith)),
    )

-- After `flushUsers` has written the table to /passwd, over whatever was there, `loadUsers` of the next
-- start makes of it a table with the same users, with the same names and passwords in the same order. It
-- needs names without '-', passwords without '/', neither with a NUL, at most 15 bytes of each, at most
-- ten users, and lines of more than 6 bytes together.
pub load_users-flush_users :
    (lt fresh : LTable) (us : List (List ℕ × List ℕ)) (file : List ℕ)
    → lt.user_cnt ≡ length us
    → length us ≤ max_user
    → Plain us
    → Rows lt 0 us
    → 6 < length (encode us)
    → Blank fresh 0
    → (file' : List ℕ) × (lt' : LTable) × (flush_users lt true file ≡ some (file', true))
      × (load_users fresh true file' ≡ some lt')
      × (lt'.user_cnt ≡ length us)
      × Rows lt' 0 us
unfolding flush_users load_users
load_users-flush_users lt fresh us file count few plain rows enough blank =
    let written : flush_rows lt.user_cnt 0 lt (replicate (max_len * 2 + 3) 0) ≡ some (encode us) =
      ap (λ k. flush_rows k 0 lt (replicate (max_len * 2 + 3) 0)) count
      ∙ flush_rows-encode us 0 lt (replicate (max_len * 2 + 3) 0) refl rows in
    let z = drop (length (encode us)) (replicate (length file) 0) in
    let (r, buf) = buf_of us z few plain (
      drop-Zeros (length (encode us)) (replicate (length file) 0)
        (replicate-Zeros (length file))) in
    let (lt', run, n, rows', _) = load_lines us 0 fresh r (omega arith) plain blank in
    let long : ltb 6 (length (take buf_size (encode us ++ z))) ≡ true =
      read_long (encode us) z enough in
    (
      encode us ++ z,
      lt',
      rw (written, flush_users) refl,
      rw (long, load_users) (ap (λ l. load_loop l fresh 0 false 0) buf ∙ run),
      n ∙ omega arith,
      rows',
    )
