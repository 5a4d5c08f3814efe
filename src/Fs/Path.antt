-- ===== src/Fs/Path.antt =====
-- Path names of xv6-public/fs.c: `skipelem` and `namex`. A pointer is the list of the bytes from it to
-- the end of its array; an outer `none` is an access past that end. `name` is its array of DIRSIZ bytes.
-- References and locks of the inodes that `namex` passes are left out here.
use hyu_ele3021_os.Base.{
  ℕ, zero, suc, ◌+◌, ◌≡◌, Bool, true, false, not, ◌&&◌, ◌||◌, Option, none, some, List, [], ◌∷◌,
  ◌++◌, ◌==◌, leb, if◌then◌else◌, length, take, drop,
}

abbrev pub dirsiz : ℕ
dirsiz = 14

-- '/'
abbrev pub slash : ℕ
slash = 47

unfoldable pub skip_slashes : List ℕ → Option (List ℕ)
skip_slashes [] = none
skip_slashes (c ∷ s) = if c == slash then skip_slashes s else some (c ∷ s)

-- The loop over the bytes of the element: these, and the pointer behind them.
unfoldable pub scan_elem : List ℕ → Option (List ℕ × List ℕ)
scan_elem [] = none
scan_elem (c ∷ s) =
    let rest = scan_elem s in
    if not (c == slash) && not (c == 0)
    then elim rest [ none ↦ none | some (e, path) ↦ some (c ∷ e, path) ]
    else some ([], c ∷ s)

-- `memmove(name, s, n)` for `n` bytes from `e`.
abbrev pub move_in : List ℕ → List ℕ → ℕ → List ℕ
move_in name e n = take n e ++ drop n name

abbrev pub put_name : List ℕ → List ℕ → List ℕ
put_name name e =
    if leb dirsiz (length e) then move_in name e dirsiz else e ++ 0 ∷ drop (length e + 1) name

-- The pointer that `skipelem` returns (`none` for 0), and `name`.
unfoldable pub skipelem : List ℕ → List ℕ → Option (Option (List ℕ) × List ℕ)
skipelem path name = elim (skip_slashes path) [
  | none ↦ none
  | some [] ↦ none
  | some (c ∷ s) ↦ if c == 0 then some (none, name) else (elim (scan_elem (c ∷ s)) [
    | none ↦ none
    | some (e, behind) ↦ elim (skip_slashes behind) [
      | none ↦ none
      | some next ↦ some (some next, put_name name e)
    ]
  ])
]

-- What `namex` asks of the inodes: `iget(ROOTDEV, ROOTINO)` and the current directory, whether an
-- inode is a T_DIR, whether the process may search it (pid at most 2, or X_OK from `checkmod`), and
-- `dirlookup`, for which the bytes of `name` count up to the first NUL.
abbrev pub name_of : ℕ → List ℕ → List ℕ
name_of zero name = []
name_of (suc n) [] = []
name_of (suc n) (c ∷ name) = if c == 0 then [] else c ∷ name_of n name

pub record Inodes : Type 0 where
  pub root : ℕ
  pub cwd : ℕ
  pub is_dir : ℕ → Bool
  pub may_search : ℕ → Bool
  pub dirlookup : ℕ → List ℕ → Option ℕ
  pub dirlookup_name :
      (ip : ℕ) (a b : List ℕ)
      → name_of dirsiz a ≡ name_of dirsiz b
      → dirlookup ip a ≡ dirlookup ip b

-- `*path == c`
abbrev pub points_at : List ℕ → ℕ → Bool
points_at [] c = false
points_at (x ∷ path) c = x == c

-- The loop of `namex`, with rounds left: the inode that it returns, and `name`.
unfoldable pub walk_path : ℕ → Inodes → Bool → ℕ → List ℕ → List ℕ → Option (Option ℕ × List ℕ)
walk_path zero fs parent ip path name = none
walk_path (suc k) fs parent ip path name = elim (skipelem path name) [
  | none ↦ none
  | some (none, name') ↦ some (if parent then none else some ip, name')
  | some (some path', name') ↦ elim (not (fs.is_dir ip) || not (fs.may_search ip)) [
    | true ↦ some (none, name')
    | false ↦ elim (parent && points_at path' 0) [
      | true ↦ some (some ip, name')
      | false ↦ elim (fs.dirlookup ip name') [
        | none ↦ some (none, name')
        | some next ↦ walk_path k fs parent next path' name'
      ]
    ]
  ]
]

unfoldable pub namex : Inodes → Bool → List ℕ → List ℕ → Option (Option ℕ × List ℕ)
namex fs parent path name =
    walk_path (length path + 1) fs parent (if points_at path slash then fs.root else fs.cwd) path
      name
