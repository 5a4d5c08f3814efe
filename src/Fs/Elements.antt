-- ===== src/Fs/Elements.antt =====
-- The elements of a path name, and `skipelem` of xv6-public/fs.c on them.
use hyu_ele3021_os.Base.{
  ℕ, ◌≡◌, ◌≢◌, refl, sym, ◌∙◌, ap, subst, true, false, none, some, List, [], ◌∷◌, ◌++◌, arith, ◌==◌,
  if◌then◌else◌, Bool-cases, inl, inr,
}
use hyu_ele3021_os.Fs.Path.{slash, skip_slashes, scan_elem, put_name, skipelem}

-- No NUL, and no NUL or '/'.
abbrev pub NoNul : List ℕ → Type 0
NoNul [] = Unit {0}
NoNul (c ∷ s) = (c ≢ 0) × NoNul s

abbrev pub IsElem : List ℕ → Type 0
IsElem [] = Unit {0}
IsElem (c ∷ s) = (c ≢ 0) × (c ≢ slash) × IsElem s

-- The first element of a path with no leading '/', and what is behind it.
abbrev pub first_elem : List ℕ → List ℕ
first_elem [] = []
first_elem (c ∷ s) = if c == slash then [] else c ∷ first_elem s

abbrev pub after_elem : List ℕ → List ℕ
after_elem [] = []
after_elem (c ∷ s) = if c == slash then c ∷ s else after_elem s

abbrev pub trim : List ℕ → List ℕ
trim [] = []
trim (c ∷ s) = if c == slash then trim s else c ∷ s

pub skip_slashes-trim :
    (s rest : List ℕ) → NoNul s → skip_slashes (s ++ 0 ∷ rest) ≡ some (trim s ++ 0 ∷ rest)
unfolding skip_slashes
skip_slashes-trim [] rest h = refl
skip_slashes-trim (c ∷ s) rest h = elim (Bool-cases (c == slash)) [
  | inl yes_ ↦ rw yes_ (skip_slashes-trim s rest h.1)
  | inr no_ ↦ rw no_ refl
]

pub scan_elem-first :
    (s rest : List ℕ)
    → NoNul s
    → scan_elem (s ++ 0 ∷ rest) ≡ some (first_elem s, after_elem s ++ 0 ∷ rest)
unfolding scan_elem
scan_elem-first [] rest h = refl
scan_elem-first (c ∷ s) rest h = elim (Bool-cases (c == slash)) [
  | inl yes_ ↦ rw yes_ refl
  | inr no_ ↦
      let some_byte : (c == 0) ≡ false = ground (arith, h.0) in
      rw (no_, some_byte, scan_elem-first s rest h.1) refl
]

pub NoNul-after : (s : List ℕ) → NoNul s → NoNul (after_elem s)
NoNul-after [] h = tt
NoNul-after (c ∷ s) h = elim (Bool-cases (c == slash)) [
  | inl yes_ ↦ rw yes_ h
  | inr no_ ↦ rw no_ (NoNul-after s h.1)
]

pub NoNul-trim : (s : List ℕ) → NoNul s → NoNul (trim s)
NoNul-trim [] h = tt
NoNul-trim (c ∷ s) h = elim (Bool-cases (c == slash)) [
  | inl yes_ ↦ rw yes_ (NoNul-trim s h.1)
  | inr no_ ↦ rw no_ h
]

-- `skipelem` on a path that has an element.
pub skipelem-some :
    (s rest name : List ℕ) (c : ℕ) (t : List ℕ)
    → NoNul s
    → trim s ≡ c ∷ t
    → skipelem (s ++ 0 ∷ rest) name
      ≡ some (some (trim (after_elem (c ∷ t)) ++ 0 ∷ rest), put_name name (first_elem (c ∷ t)))
unfolding skipelem
skipelem-some s rest name c t h e =
    let front : skip_slashes (s ++ 0 ∷ rest) ≡ some (c ∷ (t ++ 0 ∷ rest)) =
      skip_slashes-trim s rest h ∙ ap (λ x. some (x ++ 0 ∷ rest)) e in
    let whole : NoNul (c ∷ t) = subst NoNul e (NoNul-trim s h) in
    let real : (c == 0) ≡ false = ground (arith, whole.0) in
    rw
      (
        front,
        skipelem,
        real,
        scan_elem-first (c ∷ t) rest whole,
        skip_slashes-trim (after_elem (c ∷ t)) rest (NoNul-after (c ∷ t) whole),
      )
      refl

-- `skipelem` on a path of slashes.
pub skipelem-none :
    (s rest name : List ℕ)
    → NoNul s
    → trim s ≡ []
    → skipelem (s ++ 0 ∷ rest) name ≡ some (none, name)
unfolding skipelem
skipelem-none s rest name h e =
    let front : skip_slashes (s ++ 0 ∷ rest) ≡ some (0 ∷ rest) =
      skip_slashes-trim s rest h ∙ ap (λ x. some (x ++ 0 ∷ rest)) e in
    rw (front, skipelem) refl

-- The elements of a path, between its slashes.
abbrev emit : List ℕ → List (List ℕ) → List (List ℕ)
emit [] es = es
emit (c ∷ e) es = (c ∷ e) ∷ es

abbrev split : List ℕ → List ℕ × List (List ℕ)
split [] = ([], [])
split (c ∷ s) =
    if c == slash then ([], emit (split s).0 (split s).1) else (c ∷ (split s).0, (split s).1)

abbrev pub elements : List ℕ → List (List ℕ)
elements s = emit (split s).0 (split s).1

split-slash : (c : ℕ) (s : List ℕ) → (c == slash) ≡ true → split (c ∷ s) ≡ ([], elements s)
split-slash c s e = ap (λ b. if b then ([], elements s) else (c ∷ (split s).0, (split s).1)) e

split-byte :
    (c : ℕ) (s : List ℕ) → (c == slash) ≡ false → split (c ∷ s) ≡ (c ∷ (split s).0, (split s).1)
split-byte c s e = ap (λ b. if b then ([], elements s) else (c ∷ (split s).0, (split s).1)) e

elements-slash : (c : ℕ) (s : List ℕ) → (c == slash) ≡ true → elements (c ∷ s) ≡ elements s
elements-slash c s e = ap (λ p. emit p.0 p.1) (split-slash c s e)

pub elements-trim : (s : List ℕ) → elements (trim s) ≡ elements s
elements-trim [] = refl
elements-trim (c ∷ s) = elim (Bool-cases (c == slash)) [
  | inl yes_ ↦
      ap (λ b. elements (if b then trim s else c ∷ s)) yes_
      ∙ elements-trim s
      ∙ sym (elements-slash c s yes_)
  | inr no_ ↦ ap (λ b. elements (if b then trim s else c ∷ s)) no_
]

split-first : (s : List ℕ) → (split s).0 ≡ first_elem s
split-first [] = refl
split-first (c ∷ s) = elim (Bool-cases (c == slash)) [
  | inl yes_ ↦
      ap (λ p. p.0) (split-slash c s yes_) ∙ sym (ap (λ b. if b then [] else c ∷ first_elem s) yes_)
  | inr no_ ↦
      ap (λ p. p.0) (split-byte c s no_)
      ∙ ap (λ e. c ∷ e) (split-first s)
      ∙ sym (ap (λ b. if b then [] else c ∷ first_elem s) no_)
]

split-after : (s : List ℕ) → (split s).1 ≡ elements (after_elem s)
split-after [] = refl
split-after (c ∷ s) = elim (Bool-cases (c == slash)) [
  | inl yes_ ↦
      ap (λ p. p.1) (split-slash c s yes_)
      ∙ sym (elements-slash c s yes_)
      ∙ sym (ap (λ b. elements (if b then c ∷ s else after_elem s)) yes_)
  | inr no_ ↦
      ap (λ p. p.1) (split-byte c s no_)
      ∙ split-after s
      ∙ sym (ap (λ b. elements (if b then c ∷ s else after_elem s)) no_)
]

-- A path without its leading slashes starts with another byte.
pub trim-slash : (s : List ℕ) (c : ℕ) (t : List ℕ) → trim s ≡ c ∷ t → (c == slash) ≡ false
trim-slash [] c t e = absurd (cc)
trim-slash (x ∷ s) c t e = elim (Bool-cases (x == slash)) [
  | inl yes_ ↦ trim-slash s c t (sym (ap (λ b. if b then trim s else x ∷ s) yes_) ∙ e)
  | inr no_ ↦
      let same : x ∷ s ≡ c ∷ t = sym (ap (λ b. if b then trim s else x ∷ s) no_) ∙ e in
      let head : x ≡ c = cc in subst (λ y. (y == slash) ≡ false) head no_
]

pub elements_none : (s : List ℕ) → trim s ≡ [] → elements s ≡ []
elements_none s e = sym (elements-trim s) ∙ ap elements e

pub elements_some :
    (s : List ℕ) (c : ℕ) (t : List ℕ)
    → trim s ≡ c ∷ t
    → elements s ≡ first_elem (c ∷ t) ∷ elements (trim (after_elem (c ∷ t)))
elements_some s c t e =
    sym (elements-trim s)
    ∙ ap elements e
    ∙ ap (λ p. emit p.0 p.1) (split-byte c t byte)
    ∙ (λ i. first i ∷ rest i)
  where
    byte : (c == slash) ≡ false
    byte = trim-slash s c t e

    first : c ∷ (split t).0 ≡ first_elem (c ∷ t)
    first = sym (ap (λ p. p.0) (split-byte c t byte)) ∙ split-first (c ∷ t)

    rest : (split t).1 ≡ elements (trim (after_elem (c ∷ t)))
    rest =
        sym (ap (λ p. p.1) (split-byte c t byte))
        ∙ split-after (c ∷ t)
        ∙ sym (elements-trim (after_elem (c ∷ t)))
