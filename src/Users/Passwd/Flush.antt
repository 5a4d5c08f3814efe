-- ===== src/Users/Passwd/Flush.antt =====
-- What `flushUsers` of xv6-public/sysfile.c writes for a user.
use hyu_ele3021_os.Base.{
  ℕ, zero, suc, ◌+◌, ◌*◌, ◌≤◌, ◌<◌, ◌≡◌, refl, sym, ◌∙◌, ap, true, none, some, List, [], ◌∷◌, ◌++◌,
  ltb, arith, if◌then◌else◌, length, take, drop, length-append, length-drop,
}
use hyu_ele3021_os.CString.{strlen, strncpy, store}
use hyu_ele3021_os.CString.Laws.{Holds, IsText, strlen_text, strncpy_text}
use hyu_ele3021_os.Users.{LTable, row, max_len}
use hyu_ele3021_os.Users.Passwd.{dash, slash, write_field, flush_row, flush_rows}

pub take-append : (s t : List ℕ) → take (length s) (s ++ t) ≡ s
take-append [] t = refl
take-append (c ∷ s) t = ap (λ x. c ∷ x) (take-append s t)

pub drop-append : (s t : List ℕ) → drop (length s) (s ++ t) ≡ t
drop-append [] t = refl
drop-append (c ∷ s) t = drop-append s t

pub append_assoc : (a b c : List ℕ) → (a ++ b) ++ c ≡ a ++ (b ++ c)
append_assoc [] b c = refl
append_assoc (x ∷ a) b c = ap (λ l. x ∷ l) (append_assoc a b c)

drop-suc : (n : ℕ) (p : List ℕ) → n < length p → (x : ℕ) × (drop n p ≡ x ∷ drop (suc n) p)
drop-suc n [] h = absurd (omega arith)
drop-suc zero (x ∷ p) h = (x, refl)
drop-suc (suc n) (x ∷ p) h = drop-suc n p (omega arith)

store-head : (x : ℕ) (q : List ℕ) (c : ℕ) → store (x ∷ q) 0 c ≡ some (c ∷ q)
store-head x q c =
    let inside : ltb 0 (suc (length q)) ≡ true = ground arith in
    ap (λ b. if b then some (c ∷ q) else none) inside

write_field_lem :
    (p u s : List ℕ) (c : ℕ)
    → Holds u s
    → length s < length p
    → write_field p u c ≡ some (s ++ c ∷ [], drop (suc (length s)) p)
write_field_lem p u s c (text, rest, e) room =
    let (x, d) = drop-suc (length s) p room in
    let len : strlen u ≡ some (length s) = ap strlen e ∙ strlen_text s rest text in
    let copied : strncpy p u (length s) ≡ some (s ++ drop (length s) p) =
      ap (λ b. strncpy p b (length s)) e ∙ strncpy_text p s rest text (omega arith) in
    rw
      (
        len,
        copied,
        drop-append s (drop (length s) p),
        take-append s (drop (length s) p),
        d,
        store-head x (drop (suc (length s)) p) c,
      )
      refl

-- A user's name or password fits the buffer.
abbrev pub Fits : List ℕ → List ℕ → Type 0
Fits s t = (length s ≤ max_len) × (length t ≤ max_len)

-- The line of a user.
abbrev pub line : List ℕ → List ℕ → List ℕ
line s t = (s ++ dash ∷ []) ++ (t ++ slash ∷ [])

IsText-append : (s t : List ℕ) → IsText s → IsText t → IsText (s ++ t)
IsText-append [] t hs ht = ht
IsText-append (c ∷ s) t hs ht = (hs.0, hs.1, IsText-append s t hs.2 ht)

line-IsText : (s t : List ℕ) → IsText s → IsText t → IsText (line s t)
line-IsText s t hs ht =
    IsText-append (s ++ dash ∷ []) (t ++ slash ∷ []) (IsText-append s (dash ∷ []) hs (ground arith))
      (IsText-append t (slash ∷ []) ht (ground arith))

nonempty : (q : List ℕ) → 0 < length q → (x : ℕ) × (q' : List ℕ) × (q ≡ x ∷ q')
nonempty [] h = absurd (omega arith)
nonempty (x ∷ q') h = (x, q', refl)

flush_row-fields :
    (buf u w a p b : List ℕ) (x : ℕ) (q : List ℕ) (n : ℕ)
    → write_field buf u dash ≡ some (a, p)
    → write_field p w slash ≡ some (b, x ∷ q)
    → strlen (a ++ (b ++ 0 ∷ q)) ≡ some n
    → flush_row buf u w ≡ some (a ++ (b ++ 0 ∷ q), take n (a ++ (b ++ 0 ∷ q)))
unfolding flush_row
flush_row-fields buf u w a p b x q n e e' len = rw (e, flush_row, e', store-head x q 0, len) refl

flush_row_lem :
    (buf u w s t : List ℕ)
    → length buf ≡ max_len * 2 + 3
    → Holds u s
    → Holds w t
    → Fits s t
    → (buf' : List ℕ) × (length buf' ≡ max_len * 2 + 3)
      × (flush_row buf u w ≡ some (buf', line s t))
flush_row_lem buf u w s t size hs ht fit =
    let first = write_field_lem buf u s dash hs (omega arith) in
    let second = write_field_lem p w t slash ht (omega (arith, length-drop (suc (length s)) buf)) in
    let (x, q', e) =
      nonempty (drop (suc (length t)) p)
        (omega (arith, length-drop (suc (length s)) buf, length-drop (suc (length t)) p)) in
    let whole : (s ++ dash ∷ []) ++ ((t ++ slash ∷ []) ++ 0 ∷ q') ≡ line s t ++ 0 ∷ q' =
      sym (append_assoc (s ++ dash ∷ []) (t ++ slash ∷ []) (0 ∷ q')) in
    let long : strlen ((s ++ dash ∷ []) ++ ((t ++ slash ∷ []) ++ 0 ∷ q'))
        ≡ some (length (line s t)) =
      ap strlen whole ∙ strlen_text (line s t) q' (line-IsText s t hs.0 ht.0) in
    let text : take (length (line s t)) ((s ++ dash ∷ []) ++ ((t ++ slash ∷ []) ++ 0 ∷ q'))
        ≡ line s t =
      ap (take (length (line s t))) whole ∙ take-append (line s t) (0 ∷ q') in
    (
      (s ++ dash ∷ []) ++ ((t ++ slash ∷ []) ++ 0 ∷ q'),
      omega (
        arith,
        length-append (s ++ dash ∷ []) ((t ++ slash ∷ []) ++ 0 ∷ q'),
        length-append s (dash ∷ []),
        length-append (t ++ slash ∷ []) (0 ∷ q'),
        length-append t (slash ∷ []),
        ap length e,
        length-drop (suc (length s)) buf,
        length-drop (suc (length t)) p,
      ),
      flush_row-fields buf u w (s ++ dash ∷ []) p (t ++ slash ∷ []) x q' (length (line s t)) first
            (second ∙ ap (λ r. some (t ++ slash ∷ [], r)) e) long
          ∙ ap (λ l. some ((s ++ dash ∷ []) ++ ((t ++ slash ∷ []) ++ 0 ∷ q'), l)) text,
    )
  where
    p : List ℕ
    p = drop (suc (length s)) buf

-- The users of the table from `i` on, and their lines.
abbrev pub Rows : LTable → ℕ → List (List ℕ × List ℕ) → Type 0
Rows lt i [] = Unit {0}
Rows lt i (u ∷ us) =
    Holds (row lt.usernames i) u.0
    × Holds (row lt.passwords i) u.1
    × Fits u.0 u.1
    × Rows lt (i + 1) us

abbrev pub encode : List (List ℕ × List ℕ) → List ℕ
encode [] = []
encode (u ∷ us) = line u.0 u.1 ++ encode us

pub flush_rows-encode :
    (us : List (List ℕ × List ℕ)) (i : ℕ) (lt : LTable) (buf : List ℕ)
    → length buf ≡ max_len * 2 + 3
    → Rows lt i us
    → flush_rows (length us) i lt buf ≡ some (encode us)
unfolding flush_rows
flush_rows-encode [] i lt buf size h = refl
flush_rows-encode (u ∷ us) i lt buf size h =
    let (buf', size', e) =
      flush_row_lem buf (row lt.usernames i) (row lt.passwords i) u.0 u.1 size h.0 h.1 h.2 in
    rw (e, flush_rows, flush_rows-encode us (i + 1) lt buf' size' h.3) refl
