-- ===== src/Bcache/Links.antt =====
-- Doubly linked chains of nodes as lists: what the pointer writes of bio.c do to a chain.
use hyu_ele3021_os.Base.{
  ℕ, zero, suc, ◌<◌, ◌≡◌, ◌≢◌, refl, sym, ap, Bool, false, Option, none, some, List, [], ◌∷◌, ◌++◌,
  arith, ◌==◌, if◌then◌else◌, length, length-append,
}
use hyu_ele3021_os.Bcache.{update, walk}

-- Node `b` is not in the list.
abbrev pub Out : ℕ → List ℕ → Type 0
Out b [] = Unit {0}
Out b (x ∷ xs) = (b ≢ x) × Out b xs

abbrev pub Distinct : List ℕ → Type 0
Distinct [] = Unit {0}
Distinct (x ∷ xs) = Out x xs × Distinct xs

-- From node `a` the pointers `nx` pass through the list to node `z`, and `pv` back again.
abbrev pub Links : (ℕ → ℕ) → (ℕ → ℕ) → ℕ → List ℕ → ℕ → Type 0
Links nx pv a [] z = (nx a ≡ z) × (pv z ≡ a)
Links nx pv a (x ∷ xs) z = (nx a ≡ x) × (pv x ≡ a) × Links nx pv x xs z

pub Out-append : (b : ℕ) (xs ys : List ℕ) → Out b (xs ++ ys) → Out b xs × Out b ys
Out-append b [] ys h = (tt, h)
Out-append b (x ∷ xs) ys h = let (o, o') = Out-append b xs ys h.1 in ((h.0, o), o')

pub append-Out : (b : ℕ) (xs ys : List ℕ) → Out b xs → Out b ys → Out b (xs ++ ys)
append-Out b [] ys h h' = h'
append-Out b (x ∷ xs) ys h h' = (h.0, append-Out b xs ys h.1 h')

-- A write to a node that the chain does not leave, or does not enter, keeps it.
pub Links-next :
    (nx pv : ℕ → ℕ) (a : ℕ) (xs : List ℕ) (z c v : ℕ)
    → c ≢ a
    → Out c xs
    → Links nx pv a xs z
    → Links (update nx c v) pv a xs z
Links-next nx pv a [] z c v h o l = ground (arith, l)
Links-next nx pv a (x ∷ xs) z c v h o l =
    (ground (arith, l.0), l.1, Links-next nx pv x xs z c v o.0 o.1 l.2)

pub Links-prev :
    (nx pv : ℕ → ℕ) (a : ℕ) (xs : List ℕ) (z c v : ℕ)
    → c ≢ z
    → Out c xs
    → Links nx pv a xs z
    → Links nx (update pv c v) a xs z
Links-prev nx pv a [] z c v h o l = ground (arith, l)
Links-prev nx pv a (x ∷ xs) z c v h o l =
    (l.0, ground (arith, l.1, o.0), Links-prev nx pv x xs z c v h o.1 l.2)

-- The last node before the end of a list that starts behind `a`, and the first of a list before `z`.
abbrev pub last_or : ℕ → List ℕ → ℕ
last_or a [] = a
last_or a (x ∷ xs) = last_or x xs

abbrev pub first_or : ℕ → List ℕ → ℕ
first_or z [] = z
first_or z (x ∷ xs) = x

pub Links-first :
    (nx pv : ℕ → ℕ) (a : ℕ) (xs : List ℕ) (z : ℕ) → Links nx pv a xs z → nx a ≡ first_or z xs
Links-first nx pv a [] z l = l.0
Links-first nx pv a (x ∷ xs) z l = l.0

pub Links-last :
    (nx pv : ℕ → ℕ) (a : ℕ) (xs : List ℕ) (z : ℕ) → Links nx pv a xs z → pv z ≡ last_or a xs
Links-last nx pv a [] z l = l.1
Links-last nx pv a (x ∷ xs) z l = Links-last nx pv x xs z l.2

pub Links-append :
    (nx pv : ℕ → ℕ) (a : ℕ) (xs : List ℕ) (b : ℕ) (ys : List ℕ) (z : ℕ)
    → Links nx pv a (xs ++ b ∷ ys) z
    → Links nx pv a xs b × Links nx pv b ys z
Links-append nx pv a [] b ys z l = ((l.0, l.1), l.2)
Links-append nx pv a (x ∷ xs) b ys z l =
    let (front, back) = Links-append nx pv x xs b ys z l.2 in ((l.0, l.1, front), back)

pub append-Links :
    (nx pv : ℕ → ℕ) (a : ℕ) (xs : List ℕ) (b : ℕ) (ys : List ℕ) (z : ℕ)
    → Links nx pv a xs b
    → Links nx pv b ys z
    → Links nx pv a (xs ++ b ∷ ys) z
append-Links nx pv a [] b ys z l l' = (l.0, l.1, l')
append-Links nx pv a (x ∷ xs) b ys z l l' = (l.0, l.1, append-Links nx pv x xs b ys z l.2 l')

-- A list back to front.
abbrev pub backwards : List ℕ → List ℕ
backwards [] = []
backwards (x ∷ xs) = backwards xs ++ x ∷ []

-- The same chain by its other pointers.
pub Links-backwards :
    (nx pv : ℕ → ℕ) (a : ℕ) (xs : List ℕ) (z : ℕ)
    → Links nx pv a xs z
    → Links pv nx z (backwards xs) a
Links-backwards nx pv a [] z l = (l.1, l.0)
Links-backwards nx pv a (x ∷ xs) z l =
    append-Links pv nx z (backwards xs) x [] a (Links-backwards nx pv x xs z l.2) (l.1, l.0)

pub length-backwards : (xs : List ℕ) → length (backwards xs) ≡ length xs
length-backwards [] = refl
length-backwards (x ∷ xs) =
    omega (arith, length-append (backwards xs) (x ∷ []), length-backwards xs)

pub Out-backwards : (b : ℕ) (xs : List ℕ) → Out b xs → Out b (backwards xs)
Out-backwards b [] h = tt
Out-backwards b (x ∷ xs) h = append-Out b (backwards xs) (x ∷ []) (Out-backwards b xs h.1) (h.0, tt)

last_or-Out : (a x : ℕ) (xs : List ℕ) → a ≢ x → Out a xs → last_or x xs ≢ a
last_or-Out a x [] h o = λ e. h (sym e)
last_or-Out a x (y ∷ xs) h o = last_or-Out a y xs o.0 o.1

first_or-Out : (a z : ℕ) (ys : List ℕ) → a ≢ z → Out a ys → first_or z ys ≢ a
first_or-Out a z [] h o = λ e. h (sym e)
first_or-Out a z (y ∷ ys) h o = λ e. o.0 (sym e)

-- The writes that join the nodes on both sides of `b` take it out of the chain.
pub Links-join :
    (nx pv : ℕ → ℕ) (a : ℕ) (xs : List ℕ) (b : ℕ) (ys : List ℕ) (z : ℕ)
    → Distinct (xs ++ b ∷ ys)
    → Out a (xs ++ b ∷ ys)
    → Out z (xs ++ b ∷ ys)
    → Links nx pv a (xs ++ b ∷ ys) z
    → Links
        (update nx (last_or a xs) (first_or z ys))
        (update pv (first_or z ys) (last_or a xs))
        a
        (xs ++ ys)
        z
Links-join nx pv a [] b [] z d oa oz l = ground arith
Links-join nx pv a [] b (y ∷ ys) z d oa oz l = (
  ground arith,
  ground arith,
  Links-next nx (update pv y a) y ys z a y oa.1.0 oa.1.1
      (Links-prev nx pv y ys z y a (λ e. oz.1.0 (sym e)) d.1.0 l.2.2),
)
Links-join nx pv a (x ∷ xs) b ys z d oa oz l = (
  ground (arith, l.0, last_or-Out a x xs oa.0 (Out-append a xs (b ∷ ys) oa.1).0),
  ground (arith, l.1, first_or-Out x z ys (λ e. oz.0 (sym e)) (Out-append x xs (b ∷ ys) d.0).1.1),
  Links-join nx pv x xs b ys z d.1 d.0 oz.1 l.2,
)

-- The list's own search, and that of a walk along a chain that ends at the head.
abbrev pub find : (ℕ → Bool) → List ℕ → Option ℕ
find test [] = none
find test (x ∷ xs) = if test x then some x else find test xs

pub walk-find :
    (k : ℕ) (nx pv : ℕ → ℕ) (test : ℕ → Bool) (a : ℕ) (xs : List ℕ)
    → Links nx pv a xs 0
    → Out 0 xs
    → length xs < k
    → walk k nx test (nx a) ≡ find test xs
unfolding walk
walk-find zero nx pv test a xs l o h = absurd (omega arith)
walk-find (suc k) nx pv test a [] l o h = rw l.0 refl
walk-find (suc k) nx pv test a (x ∷ xs) l o h =
    let inside : (x == 0) ≡ false = ground (arith, o.0) in
    rw (l.0, inside)
      (ap (λ r. if test x then some x else r) (walk-find k nx pv test x xs l.2 o.1 (omega arith)))
