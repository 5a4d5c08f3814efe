-- ===== src/CString/Laws.antt =====
-- The functions of string.c on NUL-terminated strings.
use hyu_ele3021_os.Base.Words.{sub32}
use hyu_ele3021_os.Base.{
  ℕ, zero, suc, ◌≤◌, ◌<◌, ◌≡◌, refl, ap, Bool, true, false, ◌&&◌, some, List, [], ◌∷◌, ◌++◌, arith,
  ◌==◌, ltb, length, drop, Bool-cases, inl, inr, take,
}
use hyu_ele3021_os.CString.{strlen, strncmp, strncpy, safestrcpy, equals}

-- The bytes of a string: none is 0, and each is a byte.
abbrev pub IsText : List ℕ → Type 0
IsText [] = Unit {0}
IsText (c ∷ s) = (0 < c) × (c < 256) × IsText s

-- An array that holds the string `s`.
abbrev pub Holds : List ℕ → List ℕ → Type 0
Holds b s = IsText s × (rest : List ℕ) × (b ≡ s ++ 0 ∷ rest)

-- Two strings are the same.
abbrev pub same_text : List ℕ → List ℕ → Bool
same_text [] [] = true
same_text [] (b ∷ t) = false
same_text (a ∷ s) [] = false
same_text (a ∷ s) (b ∷ t) = a == b && same_text s t

pub same_text→eq : (s t : List ℕ) → same_text s t ≡ true → s ≡ t
same_text→eq [] [] e = refl
same_text→eq [] (b ∷ t) e = absurd (cc)
same_text→eq (a ∷ s) [] e = absurd (cc)
same_text→eq (a ∷ s) (b ∷ t) e = ground (arith, same_text→eq s t)

pub same_text_refl : (s : List ℕ) → same_text s s ≡ true
same_text_refl [] = refl
same_text_refl (a ∷ s) = ground (arith, same_text_refl s)

pub strlen_text : (s rest : List ℕ) → IsText s → strlen (s ++ 0 ∷ rest) ≡ some (length s)
unfolding strlen
strlen_text [] rest h = refl
strlen_text (c ∷ s) rest h = ground (arith, strlen_text s rest h.2)

strncmp_text :
    (s t r r' : List ℕ)
    → IsText s
    → IsText t
    → length s ≡ length t
    → (d : ℕ) × (strncmp (s ++ 0 ∷ r) (t ++ 0 ∷ r') (length s) ≡ some d)
      × ((d == 0) ≡ same_text s t)
unfolding strncmp
strncmp_text [] [] r r' h h' e = (0, refl, refl)
strncmp_text [] (b ∷ t) r r' h h' e = absurd (omega arith)
strncmp_text (a ∷ s) [] r r' h h' e = absurd (omega arith)
strncmp_text (a ∷ s) (b ∷ t) r r' h h' e = elim (Bool-cases (a == b)) [
  | inl same ↦
      let (d, run, test) = strncmp_text s t r r' h.2 h'.2 (omega arith) in
      let nonzero : (a == 0) ≡ false = ground arith in (d, rw (nonzero, same) run, rw same test)
  | inr other ↦
      let nonzero : (a == 0) ≡ false = ground arith in
      (sub32 a b, rw (nonzero, other) refl, rw other (ground arith))
]

same_text-length : (s t : List ℕ) → (length s ≡ length t → ⊥) → same_text s t ≡ false
same_text-length [] [] h = absurd (h refl)
same_text-length [] (b ∷ t) h = refl
same_text-length (a ∷ s) [] h = refl
same_text-length (a ∷ s) (b ∷ t) h = ground (arith, same_text-length s t (λ e. h (ap suc e)))

-- `equals` compares the strings that two arrays hold, and reads nothing past their ends.
pub equals-same_text :
    {b b' : List ℕ} (s t : List ℕ) → Holds b s → Holds b' t → equals b b' ≡ some (same_text s t)
unfolding equals
equals-same_text s t (hs, r, e) (ht, r', e') =
    rw (e, e', strlen_text s r hs, strlen_text t r' ht)
      (elim (Bool-cases (length s == length t)) [
        | inl same ↦
            let (d, run, test) = strncmp_text s t r r' hs ht (ground arith) in
            rw (same, run, test) refl
        | inr other ↦ rw (other, same_text-length s t (λ l. ground arith)) refl
      ])

-- With `n` the length of the string, `strncpy` writes its bytes and no NUL.
pub strncpy_text :
    (d s r : List ℕ)
    → IsText s
    → length s ≤ length d
    → strncpy d (s ++ 0 ∷ r) (length s) ≡ some (s ++ drop (length s) d)
unfolding strncpy
strncpy_text d [] r h le = refl
strncpy_text [] (c ∷ s) r h le = absurd (omega arith)
strncpy_text (x ∷ d) (c ∷ s) r h le =
    let nonzero : (c == 0) ≡ false = ground arith in
    rw (nonzero, strncpy_text d s r h.2 (omega arith)) refl

-- `safestrcpy(d, s, n + 1)` into an array of more than `n` bytes leaves the first `n` bytes of the
-- string `s`, or all of it if it is shorter, with a NUL behind them.
pub safestrcpy-Holds :
    (d s r : List ℕ) (n : ℕ)
    → IsText s
    → n < length d
    → (b : List ℕ) × (safestrcpy d (s ++ 0 ∷ r) (suc n) ≡ some b) × Holds b (take n s)
unfolding safestrcpy
safestrcpy-Holds [] s r n h lt = absurd (omega arith)
safestrcpy-Holds (x ∷ d) s r zero h lt =
    let inside : ltb 0 (length (x ∷ d)) ≡ true = ground arith in
    (0 ∷ d, rw inside refl, (tt, d, refl))
safestrcpy-Holds (x ∷ []) [] r (suc n) h lt = absurd (omega arith)
safestrcpy-Holds (x ∷ y ∷ d) [] r (suc n) h lt =
    let inside : ltb 0 (length (y ∷ d)) ≡ true = ground arith in
    (0 ∷ 0 ∷ d, rw inside refl, (tt, 0 ∷ d, refl))
safestrcpy-Holds (x ∷ d) (c ∷ s) r (suc n) h lt =
    let (b, run, (text, rest, e)) = safestrcpy-Holds d s r n h.2 (omega arith) in
    let nonzero : (c == 0) ≡ false = ground arith in
    (c ∷ b, rw (nonzero, run) refl, ((h.0, h.1, text), rest, ap (λ l. c ∷ l) e))
