-- ===== src/Users/Passwd/Load.antt =====
-- What `loadUsers` of xv6-public/sysfile.c makes of the line of a user.
use hyu_ele3021_os.Base.{
  ℕ, ◌+◌, ◌≤◌, ◌<◌, ◌≡◌, ◌≢◌, refl, sym, ◌∙◌, ap, true, false, some, List, [], ◌∷◌, ◌++◌, ◌==◌, ltb,
  arith, length, drop, set, length-append, length-set, get_or-set_self, get_or-set_ne,
}
use hyu_ele3021_os.Users.{LTable, row, max_user}
use hyu_ele3021_os.Users.Passwd.{dash, slash, put_char, load_loop}
use hyu_ele3021_os.Users.Passwd.Flush.{append_assoc}

-- The bytes of a field: none is NUL or the mark that ends it.
abbrev pub Field : ℕ → List ℕ → Type 0
Field mark [] = Unit {0}
Field mark (c ∷ s) = (c ≢ 0) × (c ≢ mark) × Field mark s

-- One row of a table is changed.
abbrev pub Changed : List (List ℕ) → ℕ → List (List ℕ) → Type 0
Changed rows idx rows' =
    (length rows' ≡ length rows) × ((j : ℕ) → j ≢ idx → row rows' j ≡ row rows j)

set-append :
    (pre : List ℕ) (x : ℕ) (zs : List ℕ) (c : ℕ)
    → set (pre ++ x ∷ zs) (length pre) c ≡ pre ++ c ∷ zs
set-append [] x zs c = refl
set-append (p ∷ pre) x zs c = ap (λ l. p ∷ l) (set-append pre x zs c)

put_char_lem :
    (rows : List (List ℕ)) (idx : ℕ) (pre : List ℕ) (x : ℕ) (zs : List ℕ) (c : ℕ)
    → row rows idx ≡ pre ++ x ∷ zs
    → idx < length rows
    → (rows' : List (List ℕ)) × (put_char rows idx (length pre) c ≡ some rows')
      × Changed rows idx rows'
      × (row rows' idx ≡ (pre ++ c ∷ []) ++ zs)
put_char_lem rows idx pre x zs c e low =
    let inside : ltb (length pre) (length (row rows idx)) ≡ true =
      ground (arith, ap length e, length-append pre (x ∷ zs)) in
    let new : set (row rows idx) (length pre) c ≡ pre ++ c ∷ zs =
      ap (λ r. set r (length pre) c) e ∙ set-append pre x zs c in
    (
      set rows idx (pre ++ c ∷ zs),
      rw (inside, put_char, new) refl,
      (
        length-set rows idx (pre ++ c ∷ zs),
        λ j other. get_or-set_ne rows idx j (pre ++ c ∷ zs) [] (λ e'. other (sym e')),
      ),
      get_or-set_self rows idx (pre ++ c ∷ zs) [] low ∙ sym (append_assoc pre (c ∷ []) zs),
    )

Changed-trans :
    (rows : List (List ℕ)) (idx : ℕ) (rows' rows'' : List (List ℕ))
    → Changed rows idx rows'
    → Changed rows' idx rows''
    → Changed rows idx rows''
Changed-trans rows idx rows' rows'' c c' = (c'.0 ∙ c.0, λ j other. c'.1 j other ∙ c.1 j other)

append_nil : (s : List ℕ) → s ++ [] ≡ s
append_nil [] = refl
append_nil (c ∷ s) = ap (λ l. c ∷ l) (append_nil s)

-- The first byte of a field.
load_loop-name_byte :
    (c : ℕ) (tail : List ℕ) (lt : LTable) (idx offset : ℕ) (rows : List (List ℕ))
    → (idx == max_user) ≡ false
    → c ≢ 0
    → c ≢ dash
    → put_char lt.usernames idx offset c ≡ some rows
    → load_loop (c ∷ tail) lt idx false offset
      ≡ load_loop tail (record lt { usernames = rows }) idx false (offset + 1)
unfolding load_loop
load_loop-name_byte c tail lt idx offset rows few nul mark put =
    let real : (c == 0) ≡ false = ground (arith, nul) in
    let inside : (c == dash) ≡ false = ground (arith, mark) in
    rw (few, load_loop, real, inside, put) refl

pub load_loop-name :
    (s tail : List ℕ) (lt : LTable) (idx : ℕ) (pre zs : List ℕ)
    → (idx == max_user) ≡ false
    → Field dash s
    → length s ≤ length zs
    → row lt.usernames idx ≡ pre ++ zs
    → idx < length lt.usernames
    → (rows : List (List ℕ)) × (load_loop (s ++ dash ∷ tail) lt idx false (length pre)
        ≡ load_loop tail (record lt { usernames = rows }) idx true 0)
      × Changed lt.usernames idx rows
      × (row rows idx ≡ (pre ++ s) ++ drop (length s) zs)
unfolding load_loop
load_loop-name [] tail lt idx pre zs few h room e low = (
  lt.usernames,
  rw few refl,
  (refl, λ j other. refl),
  e ∙ ap (λ l. l ++ zs) (sym (append_nil pre)),
)
load_loop-name (c ∷ s) tail lt idx pre [] few h room e low = absurd (omega arith)
load_loop-name (c ∷ s) tail lt idx pre (z ∷ zs) few h room e low =
    let (rows, put, ch, new) = put_char_lem lt.usernames idx pre z zs c e low in
    let (rows', run, ch', done) =
      load_loop-name s tail (record lt { usernames = rows }) idx (pre ++ c ∷ []) zs few h.2
        (omega arith) new (omega (arith, ch.0)) in
    let place : length pre + 1 ≡ length (pre ++ c ∷ []) =
      omega (arith, length-append pre (c ∷ [])) in
    (
      rows',
      load_loop-name_byte c (s ++ dash ∷ tail) lt idx (length pre) rows few h.0 h.1 put
          ∙ ap (load_loop (s ++ dash ∷ tail) (record lt { usernames = rows }) idx false) place
          ∙ run,
      Changed-trans lt.usernames idx rows rows' ch ch',
      done ∙ ap (λ l. l ++ drop (length s) zs) (append_assoc pre (c ∷ []) s),
    )

-- The first byte of a field.
load_loop-password_byte :
    (c : ℕ) (tail : List ℕ) (lt : LTable) (idx offset : ℕ) (rows : List (List ℕ))
    → (idx == max_user) ≡ false
    → c ≢ 0
    → c ≢ slash
    → put_char lt.passwords idx offset c ≡ some rows
    → load_loop (c ∷ tail) lt idx true offset
      ≡ load_loop tail (record lt { passwords = rows }) idx true (offset + 1)
unfolding load_loop
load_loop-password_byte c tail lt idx offset rows few nul mark put =
    let real : (c == 0) ≡ false = ground (arith, nul) in
    let inside : (c == slash) ≡ false = ground (arith, mark) in
    rw (few, load_loop, real, inside, put) refl

pub load_loop-password :
    (s tail : List ℕ) (lt : LTable) (idx : ℕ) (pre zs : List ℕ)
    → (idx == max_user) ≡ false
    → Field slash s
    → length s ≤ length zs
    → row lt.passwords idx ≡ pre ++ zs
    → idx < length lt.passwords
    → (rows : List (List ℕ)) × (load_loop (s ++ slash ∷ tail) lt idx true (length pre)
        ≡ load_loop tail (record lt { passwords = rows }) (idx + 1) false 0)
      × Changed lt.passwords idx rows
      × (row rows idx ≡ (pre ++ s) ++ drop (length s) zs)
unfolding load_loop
load_loop-password [] tail lt idx pre zs few h room e low = (
  lt.passwords,
  rw few refl,
  (refl, λ j other. refl),
  e ∙ ap (λ l. l ++ zs) (sym (append_nil pre)),
)
load_loop-password (c ∷ s) tail lt idx pre [] few h room e low = absurd (omega arith)
load_loop-password (c ∷ s) tail lt idx pre (z ∷ zs) few h room e low =
    let (rows, put, ch, new) = put_char_lem lt.passwords idx pre z zs c e low in
    let (rows', run, ch', done) =
      load_loop-password s tail (record lt { passwords = rows }) idx (pre ++ c ∷ []) zs few h.2
        (omega arith) new (omega (arith, ch.0)) in
    let place : length pre + 1 ≡ length (pre ++ c ∷ []) =
      omega (arith, length-append pre (c ∷ [])) in
    (
      rows',
      load_loop-password_byte c (s ++ slash ∷ tail) lt idx (length pre) rows few h.0 h.1 put
          ∙ ap (load_loop (s ++ slash ∷ tail) (record lt { passwords = rows }) idx true) place
          ∙ run,
      Changed-trans lt.passwords idx rows rows' ch ch',
      done ∙ ap (λ l. l ++ drop (length s) zs) (append_assoc pre (c ∷ []) s),
    )
