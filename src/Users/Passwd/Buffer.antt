-- ===== src/Users/Passwd/Buffer.antt =====
-- The buffer of `loadUsers` in xv6-public/sysfile.c: lines with zeros behind them.
use hyu_ele3021_os.Base.{
  ℕ, zero, suc, ◌+◌, ◌-◌, ◌*◌, ◌≤◌, ◌<◌, ◌≡◌, refl, ◌∙◌, ap, true, List, [], ◌∷◌, ◌++◌, ltb, arith,
  length, take, drop, replicate, length-append, length-drop, length-take,
}
use hyu_ele3021_os.CString.Laws.{IsText}
use hyu_ele3021_os.Users.{max_user}
use hyu_ele3021_os.Users.Passwd.{dash, slash, buf_size}
use hyu_ele3021_os.Users.Passwd.Flush.{append_assoc, line, Fits, encode}
use hyu_ele3021_os.Users.Passwd.Load.{Field}

-- Names have no '-', and passwords no '/'.
abbrev pub Plain : List (List ℕ × List ℕ) → Type 0
Plain [] = Unit {0}
Plain (u ∷ us) =
    (IsText u.0 × Field dash u.0) × (IsText u.1 × Field slash u.1) × Fits u.0 u.1 × Plain us

-- All bytes are 0.
abbrev pub Zeros : List ℕ → Type 0
Zeros [] = Unit {0}
Zeros (c ∷ z) = (c ≡ 0) × Zeros z

pub replicate-Zeros : (n : ℕ) → Zeros (replicate n 0)
replicate-Zeros zero = tt
replicate-Zeros (suc n) = (refl, replicate-Zeros n)

take-Zeros : (n : ℕ) (z : List ℕ) → Zeros z → Zeros (take n z)
take-Zeros zero z h = tt
take-Zeros (suc n) [] h = tt
take-Zeros (suc n) (c ∷ z) h = (h.0, take-Zeros n z h.1)

pub drop-Zeros : (n : ℕ) (z : List ℕ) → Zeros z → Zeros (drop n z)
drop-Zeros zero z h = h
drop-Zeros (suc n) [] h = tt
drop-Zeros (suc n) (c ∷ z) h = drop-Zeros n z h.1

Zeros-append : (y z : List ℕ) → Zeros y → Zeros z → Zeros (y ++ z)
Zeros-append [] z hy hz = hz
Zeros-append (c ∷ y) z hy hz = (hy.0, Zeros-append y z hy.1 hz)

Zeros-head : (z : List ℕ) → Zeros z → 0 < length z → (r : List ℕ) × (z ≡ 0 ∷ r)
Zeros-head [] h room = absurd (omega arith)
Zeros-head (c ∷ z) h room = (z, ap (λ x. x ∷ z) h.0)

take-append_long :
    (n : ℕ) (s t : List ℕ) → length s ≤ n → take n (s ++ t) ≡ s ++ take (n - length s) t
take-append_long n [] t h = ap (λ k. take k t) (omega arith)
take-append_long zero (c ∷ s) t h = absurd (omega arith)
take-append_long (suc n) (c ∷ s) t h =
    ap (λ l. c ∷ l) (take-append_long n s t (omega arith))
    ∙ ap (λ k. c ∷ (s ++ take k t)) (omega arith)

length-line : (s t : List ℕ) → length (line s t) ≡ length s + length t + 2
length-line s t = omega (
  arith,
  length-append (s ++ dash ∷ []) (t ++ slash ∷ []),
  length-append s (dash ∷ []),
  length-append t (slash ∷ []),
)

length-encode : (us : List (List ℕ × List ℕ)) → Plain us → length (encode us) ≤ length us * 32
length-encode [] h = omega arith
length-encode (u ∷ us) h = omega (
  arith,
  length-append (line u.0 u.1) (encode us),
  length-line u.0 u.1,
  length-encode us h.3,
  h.2.0,
  h.2.1,
)

-- What `loadUsers` has in `buf`: the lines, and a NUL behind them.
pub buf_of :
    (us : List (List ℕ × List ℕ)) (z : List ℕ)
    → length us ≤ max_user
    → Plain us
    → Zeros z
    → (r : List ℕ) × (take buf_size (encode us ++ z)
          ++ drop (length (take buf_size (encode us ++ z))) (replicate buf_size 0)
        ≡ encode us ++ 0 ∷ r)
buf_of us z few h hz =
    let read = take buf_size (encode us ++ z) in
    let short : length (encode us) < buf_size = omega (arith, length-encode us h) in
    let front : read ≡ encode us ++ take (buf_size - length (encode us)) z =
      take-append_long buf_size (encode us) z (omega arith) in
    let y = take (buf_size - length (encode us)) z in
    let pad : List ℕ = drop (length read) (replicate buf_size 0) in
    let (r, e) =
      Zeros-head (y ++ pad)
        (Zeros-append y pad (take-Zeros (buf_size - length (encode us)) z hz)
          (drop-Zeros (length read) (replicate buf_size 0) (replicate-Zeros buf_size)))
        (omega (
          arith,
          length-append y pad,
          length-drop {A = ℕ} (length read) (replicate buf_size 0),
          ap length front,
          length-append (encode us) y,
        )) in
    (r, ap (λ l. l ++ pad) front ∙ append_assoc (encode us) y pad ∙ ap (λ l. encode us ++ l) e)

pub read_long : (e z : List ℕ) → 6 < length e → ltb 6 (length (take buf_size (e ++ z))) ≡ true
read_long e z h =
    let long : 6 < length (take buf_size (e ++ z)) =
      omega (arith, length-take buf_size (e ++ z), length-append e z) in
    ground (arith, long)
