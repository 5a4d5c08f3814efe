-- ===== src/Fs/Namex.antt =====
-- The whole of `namex` of xv6-public/fs.c against the walk along the elements of its path.
use hyu_ele3021_os.Base.{
  ℕ, zero, suc, ◌+◌, ◌<◌, ◌≡◌, ◌≢◌, refl, sym, ◌∙◌, ap, subst, Bool, true, false, ◌&&◌, Option,
  none, some, List, [], ◌∷◌, ◌++◌, arith, ◌==◌, if◌then◌else◌, length, length-append, take,
  Bool-cases, Option-cases, inl, inr, ◌⊎◌,
}
use hyu_ele3021_os.Fs.Path.{
  dirsiz, slash, put_name, skipelem, name_of, Inodes, points_at, walk_path, namex,
}
use hyu_ele3021_os.Fs.Elements.{
  NoNul, first_elem, after_elem, trim, elements, elements_some, elements_none, skipelem-some,
  skipelem-none, NoNul-after, NoNul-trim,
}
use hyu_ele3021_os.Fs.Resolve.{
  name_of-put_name, name_of_self, answer-blocked, answer-go, length-rest, at_end, List-cases,
  answer, Walks, walk-blocked, walk-parent, walk-missing, walk-next, blocked, last_name,
}

NoNul-first : (s : List ℕ) → NoNul s → NoNul (first_elem s)
NoNul-first [] h = tt
NoNul-first (c ∷ s) h = elim (Bool-cases (c == slash)) [
  | inl yes_ ↦ rw yes_ tt
  | inr no_ ↦ rw no_ (h.0, NoNul-first s h.1)
]

last_name-cons : (e : List ℕ) (es : List (List ℕ)) → es ≢ [] → last_name (e ∷ es) ≡ last_name es
last_name-cons e [] h = absurd (h refl)
last_name-cons e (e' ∷ es) h = refl

-- A round that looks the element up.
walk-go :
    (k : ℕ) (fs : Inodes) (parent : Bool) (ip : ℕ) (path name path' el : List ℕ)
    (es : List (List ℕ))
    → skipelem path name ≡ some (some path', put_name name el)
    → NoNul el
    → blocked fs ip ≡ false
    → (parent && points_at path' 0) ≡ false
    → (parent ≡ false) ⊎ (es ≢ [])
    → ((next : ℕ) → Walks fs parent next es (walk_path k fs parent next path' (put_name name el)))
    → Walks fs parent ip (el ∷ es) (walk_path (suc k) fs parent ip path name)
walk-go k fs parent ip path name path' el es skip real b p more rest = elim (Option-cases found) [
  | inl none_ ↦
      let a : answer fs parent ip (el ∷ es) ≡ none =
        answer-go fs parent ip el es none b more (same ∙ none_) in
      (
        n',
        walk-missing k fs parent ip path name path' n' skip b p none_
            ∙ ap (λ x. some (x, n')) (sym a),
        λ i q e. absurd (cc (sym a ∙ e)),
      )
  | inr (next, some_) ↦
      let a : answer fs parent ip (el ∷ es) ≡ answer fs parent next es =
        answer-go fs parent ip el es (some next) b more (same ∙ some_) in
      let (buf, r, names) = rest next in
      (
        buf,
        walk-next k fs parent ip path name path' n' skip next b p some_
            ∙ r
            ∙ ap (λ x. some (x, buf)) (sym a),
        λ i q e. names i q (sym a ∙ e) ∙ sym (last q),
      )
]
  where
    n' : List ℕ
    n' = put_name name el

    found : Option ℕ
    found = fs.dirlookup ip n'

    same : fs.dirlookup ip (take dirsiz el) ≡ found
    same =
        fs.dirlookup_name ip (take dirsiz el) n'
          (name_of_self dirsiz el real ∙ sym (name_of-put_name name el real))

    last : parent ≡ true → last_name (el ∷ es) ≡ last_name es
    last q = elim more [ inl h ↦ absurd (cc (sym q ∙ h)) | inr h ↦ last_name-cons el es h ]

-- The last round for the parent's directory.
walk-last :
    (k : ℕ) (fs : Inodes) (ip : ℕ) (path name path' el : List ℕ)
    → skipelem path name ≡ some (some path', put_name name el)
    → NoNul el
    → blocked fs ip ≡ false
    → points_at path' 0 ≡ true
    → Walks fs true ip (el ∷ []) (walk_path (suc k) fs true ip path name)
walk-last k fs ip path name path' el skip real b p =
    let a : answer fs true ip (el ∷ []) ≡ some ip = ap (λ t. if t then none else some ip) b in
    (
      put_name name el,
      walk-parent k fs true ip path name path' (put_name name el) skip b p
          ∙ ap (λ x. some (x, put_name name el)) (sym a),
      λ i q e. name_of-put_name name el real,
    )

walk-open :
    (k : ℕ) (fs : Inodes) (parent : Bool) (ip : ℕ) (path name w rest el : List ℕ)
    → NoNul w
    → skipelem path name ≡ some (some (trim w ++ 0 ∷ rest), put_name name el)
    → NoNul el
    → blocked fs ip ≡ false
    → ((next : ℕ)
        → Walks fs parent next
            (elements (trim w))
            (walk_path k fs parent next (trim w ++ 0 ∷ rest) (put_name name el)))
    → Walks fs parent ip (el ∷ elements (trim w)) (walk_path (suc k) fs parent ip path name)
walk-open k fs false ip path name w rest el hw skip real b rec =
    walk-go k fs false ip path name (trim w ++ 0 ∷ rest) el (elements (trim w)) skip real b refl
      (inl refl) rec
walk-open k fs true ip path name w rest el hw skip real b rec = elim (at_end w rest hw) [
  | inl (p, none_) ↦
      subst (λ es. Walks fs true ip (el ∷ es) (walk_path (suc k) fs true ip path name)) (sym none_)
        (walk-last k fs ip path name (trim w ++ 0 ∷ rest) el skip real b p)
  | inr (p, some_) ↦
      walk-go k fs true ip path name (trim w ++ 0 ∷ rest) el (elements (trim w)) skip real b p
        (inr some_) rec
]

walk_path-Walks :
    (k : ℕ) (fs : Inodes) (parent : Bool) (ip : ℕ) (s rest name : List ℕ)
    → NoNul s
    → length s < k
    → Walks fs parent ip (elements s) (walk_path k fs parent ip (s ++ 0 ∷ rest) name)
unfolding walk_path
walk_path-Walks zero fs parent ip s rest name h low = absurd (omega arith)
walk_path-Walks (suc k) fs parent ip s rest name h low = elim (List-cases (trim s)) [
  | inl e ↦
      subst (λ es. Walks fs parent ip es (walk_path (suc k) fs parent ip path name))
        (sym (elements_none s e))
        (name, rw (skipelem-none s rest name h e, walk_path) refl, λ i q a. absurd (cc (rw q at a)))
  | inr (c, t, e) ↦
      let w = after_elem (c ∷ t) in
      let el = first_elem (c ∷ t) in
      let whole : NoNul (c ∷ t) = subst NoNul e (NoNul-trim s h) in
      let hw : NoNul w = NoNul-after (c ∷ t) whole in
      let skip = skipelem-some s rest name c t h e in
      subst (λ es. Walks fs parent ip es (walk_path (suc k) fs parent ip path name))
        (sym (elements_some s c t e))
        (elim (Bool-cases (blocked fs ip)) [
          | inl b ↦
              let a = answer-blocked fs parent ip el (elements (trim w)) b in
              (
                put_name name el,
                walk-blocked k fs parent ip path name (trim w ++ 0 ∷ rest) (put_name name el) skip b
                    ∙ ap (λ x. some (x, put_name name el)) (sym a),
                λ i q e'. absurd (cc (sym a ∙ e')),
              )
          | inr b ↦
              walk-open k fs parent ip path name w rest el hw skip (NoNul-first (c ∷ t) whole) b
                (λ next.
                  walk_path-Walks k fs parent next (trim w) rest (put_name name el)
                    (NoNul-trim w hw) (omega (arith, length-rest s c t e)))
        ])
]
  where
    path : List ℕ
    path = s ++ 0 ∷ rest

-- With the parent's inode comes the last name.
abbrev Named : Bool → Option ℕ → List ℕ → List (List ℕ) → Type 0
Named true (some i) buf es = name_of dirsiz buf ≡ last_name es
Named true none buf es = Unit {0}
Named false o buf es = Unit {0}

Named-all :
    (parent : Bool) (o : Option ℕ) (buf : List ℕ) (es : List (List ℕ))
    → ((i : ℕ) → parent ≡ true → o ≡ some i → name_of dirsiz buf ≡ last_name es)
    → Named parent o buf es
Named-all true (some i) buf es h = h i refl refl
Named-all true none buf es h = tt
Named-all false o buf es h = tt

-- Where a path starts.
abbrev pub start_of : Inodes → List ℕ → ℕ
start_of fs path = if points_at path slash then fs.root else fs.cwd

-- `namex` is the walk along the elements of the path, each cut to DIRSIZ bytes, from the root for a
-- path that starts with '/' and from the current directory otherwise: it gives the inode at the end, or
-- with `nameiparent` the last but one, and then `name` is the last element. It gives 0 when an inode on
-- the way is no directory, may not be searched or does not have the name. Slashes that repeat or end
-- the path do not matter, and every path that a NUL ends is handled without an access past its end.
pub namex-resolve :
    (fs : Inodes) (parent : Bool) (s rest name : List ℕ)
    → NoNul s
    → (buf : List ℕ) × (namex fs parent (s ++ 0 ∷ rest) name
        ≡ some (answer fs parent (start_of fs (s ++ 0 ∷ rest)) (elements s), buf))
      × Named parent (answer fs parent (start_of fs (s ++ 0 ∷ rest)) (elements s)) buf (elements s)
unfolding namex
namex-resolve fs parent s rest name h =
    let ip = start_of fs (s ++ 0 ∷ rest) in
    let (buf, e, names) =
      walk_path-Walks (length (s ++ 0 ∷ rest) + 1) fs parent ip s rest name h
        (omega (arith, length-append s (0 ∷ rest))) in
    (buf, e, Named-all parent (answer fs parent ip (elements s)) buf (elements s) names)
