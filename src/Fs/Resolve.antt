-- ===== src/Fs/Resolve.antt =====
-- `namex` of xv6-public/fs.c on the elements of its path.
use hyu_ele3021_os.Base.{
  ℕ, zero, suc, ◌+◌, ◌≤◌, ◌<◌, ◌≡◌, ◌≢◌, refl, sym, ◌∙◌, ap, subst, Bool, true, false, not, ◌&&◌,
  ◌||◌, Option, none, some, List, [], ◌∷◌, ◌++◌, arith, ◌==◌, leb, if◌then◌else◌, length, take,
  drop, take-eq_self, Bool-cases, inl, inr, ◌⊎◌,
}
use hyu_ele3021_os.Fs.Path.{
  dirsiz, slash, put_name, skipelem, name_of, Inodes, points_at, walk_path,
}
use hyu_ele3021_os.Fs.Elements.{
  NoNul, after_elem, trim, elements, elements_some, elements-trim, trim-slash, NoNul-trim,
}

abbrev pub blocked : Inodes → ℕ → Bool
blocked fs ip = not (fs.is_dir ip) || not (fs.may_search ip)

-- One directory further, unless it is blocked or has no such name.
abbrev pub onward : Option ℕ → (ℕ → Option ℕ) → Bool → Option ℕ
onward found go true = none
onward none go false = none
onward (some next) go false = go next

-- The inode at the end of a walk along some names, or its directory.
abbrev pub resolve : Inodes → ℕ → List (List ℕ) → Option ℕ
resolve fs ip [] = some ip
resolve fs ip (e ∷ es) =
    onward (fs.dirlookup ip (take dirsiz e)) (λ next. resolve fs next es) (blocked fs ip)

abbrev pub resolve_parent : Inodes → ℕ → List (List ℕ) → Option ℕ
resolve_parent fs ip [] = none
resolve_parent fs ip (e ∷ []) = if blocked fs ip then none else some ip
resolve_parent fs ip (e ∷ e' ∷ es) =
    onward (fs.dirlookup ip (take dirsiz e)) (λ next. resolve_parent fs next (e' ∷ es))
      (blocked fs ip)

abbrev pub last_name : List (List ℕ) → List ℕ
last_name [] = []
last_name (e ∷ []) = take dirsiz e
last_name (e ∷ e' ∷ es) = last_name (e' ∷ es)

name_of-append : (n : ℕ) (e rest : List ℕ) → NoNul e → length e < n → name_of n (e ++ 0 ∷ rest) ≡ e
name_of-append zero e rest h low = absurd (omega arith)
name_of-append (suc n) [] rest h low = refl
name_of-append (suc n) (c ∷ e) rest h low =
    let real : (c == 0) ≡ false = ground (arith, h.0) in
    ap (λ b. if b then [] else c ∷ name_of n (e ++ 0 ∷ rest)) real
    ∙ ap (λ x. c ∷ x) (name_of-append n e rest h.1 (omega arith))

name_of-take :
    (n : ℕ) (e rest : List ℕ) → NoNul e → n ≤ length e → name_of n (take n e ++ rest) ≡ take n e
name_of-take zero e rest h low = refl
name_of-take (suc n) [] rest h low = absurd (omega arith)
name_of-take (suc n) (c ∷ e) rest h low =
    let real : (c == 0) ≡ false = ground (arith, h.0) in
    ap (λ b. if b then [] else c ∷ name_of n (take n e ++ rest)) real
    ∙ ap (λ x. c ∷ x) (name_of-take n e rest h.1 (omega arith))

pub name_of_self : (n : ℕ) (e : List ℕ) → NoNul e → name_of n (take n e) ≡ take n e
name_of_self zero e h = refl
name_of_self (suc n) [] h = refl
name_of_self (suc n) (c ∷ e) h =
    let real : (c == 0) ≡ false = ground (arith, h.0) in
    ap (λ b. if b then [] else c ∷ name_of n (take n e)) real
    ∙ ap (λ x. c ∷ x) (name_of_self n e h.1)

pub name_of-put_name :
    (name e : List ℕ) → NoNul e → name_of dirsiz (put_name name e) ≡ take dirsiz e
name_of-put_name name e h = elim (Bool-cases (leb dirsiz (length e))) [
  | inl long ↦ rw long (name_of-take dirsiz e (drop dirsiz name) h (ground (arith, long)))
  | inr short ↦
      let low : length e < dirsiz = ground (arith, short) in
      rw short (
        name_of-append dirsiz e (drop (length e + 1) name) h low
        ∙ sym (take-eq_self dirsiz e (omega arith)))
]

pub List-cases : (s : List ℕ) → (s ≡ []) ⊎ ((c : ℕ) × (t : List ℕ) × (s ≡ c ∷ t))
List-cases [] = inl refl
List-cases (c ∷ t) = inr (c, t, refl)

-- A round of the loop of `namex` with an element.
module _ (k : ℕ) (fs : Inodes) (parent : Bool) (ip : ℕ) (path name path' name' : List ℕ)
    (skipped : skipelem path name ≡ some (some path', name')) where
  pub walk-blocked :
      blocked fs ip ≡ true → walk_path (suc k) fs parent ip path name ≡ some (none, name')
  unfolding walk_path
  walk-blocked b = rw (skipped, walk_path, b) refl

  pub walk-parent :
      blocked fs ip ≡ false
      → (parent && points_at path' 0) ≡ true
      → walk_path (suc k) fs parent ip path name ≡ some (some ip, name')
  unfolding walk_path
  walk-parent b p = rw (skipped, walk_path, b, p) refl

  pub walk-missing :
      blocked fs ip ≡ false
      → (parent && points_at path' 0) ≡ false
      → fs.dirlookup ip name' ≡ none
      → walk_path (suc k) fs parent ip path name ≡ some (none, name')
  unfolding walk_path
  walk-missing b p m = rw (skipped, walk_path, b, p, m) refl

  pub walk-next :
      (next : ℕ)
      → blocked fs ip ≡ false
      → (parent && points_at path' 0) ≡ false
      → fs.dirlookup ip name' ≡ some next
      → walk_path (suc k) fs parent ip path name ≡ walk_path k fs parent next path' name'
  unfolding walk_path
  walk-next next b p m = rw (skipped, walk_path, b, p, m) refl

abbrev pub answer : Inodes → Bool → ℕ → List (List ℕ) → Option ℕ
answer fs parent ip es = if parent then resolve_parent fs ip es else resolve fs ip es

-- The loop gives the walk's inode, and the parent's walk the last name.
abbrev pub Walks : Inodes → Bool → ℕ → List (List ℕ) → Option (Option ℕ × List ℕ) → Type 0
Walks fs parent ip es r =
    (buf : List ℕ) × (r ≡ some (answer fs parent ip es, buf))
    × ((i : ℕ)
        → parent ≡ true
        → answer fs parent ip es ≡ some i
        → name_of dirsiz buf ≡ last_name es)

pub answer-blocked :
    (fs : Inodes) (parent : Bool) (ip : ℕ) (e : List ℕ) (es : List (List ℕ))
    → blocked fs ip ≡ true
    → answer fs parent ip (e ∷ es) ≡ none
answer-blocked fs false ip e es b =
    ap (onward (fs.dirlookup ip (take dirsiz e)) (λ next. resolve fs next es)) b
answer-blocked fs true ip e [] b = ap (λ t. if t then none else some ip) b
answer-blocked fs true ip e (e' ∷ es) b =
    ap (onward (fs.dirlookup ip (take dirsiz e)) (λ next. resolve_parent fs next (e' ∷ es))) b

-- Unless the walk ends here, it goes on in the inode of that name.
pub answer-go :
    (fs : Inodes) (parent : Bool) (ip : ℕ) (e : List ℕ) (es : List (List ℕ)) (r : Option ℕ)
    → blocked fs ip ≡ false
    → (parent ≡ false) ⊎ (es ≢ [])
    → fs.dirlookup ip (take dirsiz e) ≡ r
    → answer fs parent ip (e ∷ es) ≡ onward r (λ next. answer fs parent next es) false
answer-go fs false ip e es r b h m = λ i. onward (m i) (λ next. resolve fs next es) (b i)
answer-go fs true ip e [] r b (inl h) m = absurd (cc)
answer-go fs true ip e [] r b (inr h) m = absurd (h refl)
answer-go fs true ip e (e' ∷ es) r b h m =
    λ i. onward (m i) (λ next. resolve_parent fs next (e' ∷ es)) (b i)

length-trim : (s : List ℕ) → length (trim s) ≤ length s
length-trim [] = omega arith
length-trim (c ∷ s) = elim (Bool-cases (c == slash)) [
  | inl yes_ ↦ rw yes_ (omega (arith, length-trim s))
  | inr no_ ↦ rw no_ (omega arith)
]

length-after : (s : List ℕ) → length (after_elem s) ≤ length s
length-after [] = omega arith
length-after (c ∷ s) = elim (Bool-cases (c == slash)) [
  | inl yes_ ↦ rw yes_ (omega arith)
  | inr no_ ↦ rw no_ (omega (arith, length-after s))
]

-- What is behind an element is shorter.
pub length-rest :
    (s : List ℕ) (c : ℕ) (t : List ℕ)
    → trim s ≡ c ∷ t
    → length (trim (after_elem (c ∷ t))) < length s
length-rest s c t e =
    let byte = trim-slash s c t e in
    let behind : after_elem (c ∷ t) ≡ after_elem t =
      ap (λ b. if b then c ∷ t else after_elem t) byte in
    omega (
      arith,
      length-trim (after_elem (c ∷ t)),
      length-after t,
      length-trim s,
      ap length e,
      ap length behind,
    )

-- A path without leading slashes is at its end just when it has no elements.
pub at_end :
    (w rest : List ℕ)
    → NoNul w
    → ((points_at (trim w ++ 0 ∷ rest) 0 ≡ true) × (elements (trim w) ≡ []))
      ⊎ ((points_at (trim w ++ 0 ∷ rest) 0 ≡ false) × (elements (trim w) ≢ []))
at_end w rest h = elim (List-cases (trim w)) [
  | inl e ↦ inl (ap (λ x. points_at (x ++ 0 ∷ rest) 0) e, ap elements e)
  | inr (c, t, e) ↦
      let real : NoNul (c ∷ t) = subst NoNul e (NoNul-trim w h) in
      inr (
        ap (λ x. points_at (x ++ 0 ∷ rest) 0) e ∙ ground (arith, real.0),
        λ none_. absurd (cc (sym (elements_some w c t e) ∙ sym (elements-trim w) ∙ none_)),
      )
]
