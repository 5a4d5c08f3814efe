-- ===== src/Users.antt =====
-- The users of xv6-public/sysfile.c: the table `ltable`, login, and the check of a file's mode.
-- `username` and `password` are what `argstr` gives. `none` is an access past the end of an array.
-- The file /passwd is in Users.Passwd, and the user's directory is not modelled: whether `flushUsers` writes the one
-- (`flushed`) and whether mkdir and namei give the other (`home`) are arguments.
pub mod Login
pub mod Rights
pub mod Passwd
mod Tests
use hyu_ele3021_os.Base.{
  ℕ, zero, suc, ◌+◌, ◌-◌, ◌/◌, ◌%◌, Bool, true, false, not, ◌&&◌, ◌||◌, Option, none, some, List,
  [], ◌∷◌, if◌then◌else◌, ◌==◌, ltb, get_or, set, replicate,
}
use hyu_ele3021_os.CString.{◌>>=◌, strlen, strncpy, equals, store}

abbrev pub max_user : ℕ
max_user = 10

abbrev pub max_len : ℕ
max_len = 15

-- `ltable`; `user_idx` is `none` for -1. Outside of loadUsers and flushUsers its `fd` and `f` are 0.
pub record LTable : Type 0 where
  pub user_idx : Option ℕ
  pub user_cnt : ℕ
  pub usernames : List (List ℕ)
  pub passwords : List (List ℕ)

abbrev pub row : List (List ℕ) → ℕ → List ℕ
row rows i = get_or rows i []

-- `deleteUser`'s and `sys_login`'s loop over `k` users from `i` on: the user of that name.
unfoldable pub find_user : ℕ → ℕ → LTable → List ℕ → Option (Option ℕ)
find_user zero i lt username = some none
find_user (suc k) i lt username =
    let rest = find_user k (i + 1) lt username in
    strlen (row lt.usernames i) >>= λ m. strlen username >>= λ n.
    if m == n
    then (equals (row lt.usernames i) username >>= λ e. if e then some (some i) else rest)
    else rest

-- `addUser`'s loop: whether the name is taken.
unfoldable pub is_taken : ℕ → ℕ → LTable → List ℕ → Option Bool
is_taken zero i lt username = some false
is_taken (suc k) i lt username =
    let rest = is_taken k (i + 1) lt username in
    do e ← equals (row lt.usernames i) username; if e then some true else rest

abbrev pub out_of_range : ℕ → Bool
out_of_range len = ltb len 2 || ltb max_len len

-- The rest of `addUser` once the name is found to be free.
unfoldable pub put_user : LTable → List ℕ → List ℕ → ℕ → ℕ → Option LTable
put_user lt username password unlen pwlen = do
  u ← strncpy (row lt.usernames lt.user_cnt) username unlen
  p ← strncpy (row lt.passwords lt.user_cnt) password pwlen
  some (record lt {
    user_cnt = lt.user_cnt + 1;
    usernames = set lt.usernames lt.user_cnt u;
    passwords = set lt.passwords lt.user_cnt p;
  })

-- `addUser(username, password)`: the table, and whether it returns 0.
unfoldable pub add_user : LTable → List ℕ → List ℕ → Bool → Bool → Option (LTable × Bool)
add_user lt username password flushed home =
    if lt.user_cnt == max_user
    then some (lt, false)
    else (strlen username >>= λ unlen. strlen password >>= λ pwlen.
        if out_of_range unlen || out_of_range pwlen
        then some (lt, false)
        else (is_taken lt.user_cnt 0 lt username >>= λ taken.
            if taken
            then some (lt, false)
            else (put_user lt username password unlen pwlen >>= λ lt'.
                some (lt', flushed && home))))

-- `strncpy(dst, src, strlen(src)); dst[strlen(src)] = 0;`
unfoldable pub copy_row : List ℕ → List ℕ → Option (List ℕ)
copy_row dst src = do len ← strlen src; copied ← strncpy dst src len; store copied len 0

-- The loop of `deleteUser` that moves `k` users down, from user `i` on.
unfoldable pub move_down : ℕ → ℕ → LTable → Option LTable
move_down zero i lt = some lt
move_down (suc k) i lt = do
  u ← copy_row (row lt.usernames (i - 1)) (row lt.usernames i)
  p ← copy_row (row lt.passwords (i - 1)) (row lt.passwords i)
  move_down k (i + 1)
      (record lt { usernames = set lt.usernames (i - 1) u; passwords = set lt.passwords (i - 1) p })

-- `deleteUser(username)`: user 0 is root, and is refused like an unknown user.
unfoldable pub delete_user : LTable → List ℕ → Bool → Option (LTable × Bool)
delete_user lt username flushed = do
  found ← find_user lt.user_cnt 0 lt username
  elim found [
    | none ↦ some (lt, false)
    | some zero ↦ some (lt, false)
    | some (suc i) ↦ do
      moved ← move_down (lt.user_cnt - suc (suc i)) (suc (suc i)) lt
      some (
        record moved {
          user_cnt = lt.user_cnt - 1;
          usernames = set moved.usernames (lt.user_cnt - 1) (replicate (max_len + 1) 0);
          passwords = set moved.passwords (lt.user_cnt - 1) (replicate (max_len + 1) 0);
        },
        flushed,
      )
  ]

-- `ltable.user_idx > 0`
abbrev pub not_root : LTable → Bool
not_root lt = elim lt.user_idx [ none ↦ false | some i ↦ ltb 0 i ]

unfoldable pub sys_add_user : LTable → List ℕ → List ℕ → Bool → Bool → Option (LTable × Bool)
sys_add_user lt username password flushed home =
    if not_root lt then some (lt, false) else add_user lt username password flushed home

unfoldable pub sys_delete_user : LTable → List ℕ → Bool → Option (LTable × Bool)
sys_delete_user lt username flushed =
    if not_root lt then some (lt, false) else delete_user lt username flushed

unfoldable pub sys_login : LTable → List ℕ → List ℕ → Option (LTable × Bool)
sys_login lt username password = do
  found ← find_user lt.user_cnt 0 lt username
  elim found [
    | none ↦ some (lt, false)
    | some i ↦ do
      e ← equals (row lt.passwords i) password
      some (if e then record lt { user_idx = some i } else lt, e)
  ]

-- "root", with its NUL
abbrev pub root : List ℕ
root = 114 ∷ 111 ∷ 111 ∷ 116 ∷ 0 ∷ []

-- `whoami(dst)`, as the bytes of `dst` after it. With `user_idx` -1 the name is read from the 16 bytes
-- before `usernames`, which start with `fd`, that is 0.
unfoldable pub whoami : LTable → List ℕ → Option (List ℕ)
whoami lt dst =
    if lt.user_cnt == 0
    then (do copied ← strncpy dst root 4; store copied 4 0)
    else elim lt.user_idx [ none ↦ store dst 0 0 | some i ↦ copy_row dst (row lt.usernames i) ]

-- `perm & b` as a test, for a `b` that is a power of two.
abbrev pub has_bit : ℕ → ℕ → Bool
has_bit perm b = perm / b % 2 == 1

-- `result` of three tests
abbrev pub granted : Bool → Bool → Bool → ℕ
granted r w x = (if r then 4 else 0) + (if w then 2 else 0) + (if x then 1 else 0)

-- `checkmod` of a file of type `type` (3 is T_DEV), mode `perm` and the bytes `owner`: R_OK, W_OK, X_OK.
unfoldable pub checkmod : LTable → ℕ → ℕ → List ℕ → Option ℕ
checkmod lt type perm owner = if type == 3 then some 7 else (do
  username ← whoami lt (replicate (max_len + 1) 0)
  mine ← equals owner username
  is_root ← equals root username
  some (
      if mine || is_root
      then granted (has_bit perm 32) (has_bit perm 16) (has_bit perm 8)
      else granted (has_bit perm 4) (has_bit perm 2) (has_bit perm 1)))

-- The test of `sys_chmod`: whether the mode of the file may be set.
unfoldable pub may_chmod : LTable → ℕ → List ℕ → Option Bool
may_chmod lt type owner = do
  curUser ← whoami lt (replicate (max_len + 1) 0)
  is_root ← equals root curUser
  if type == 3 then some false else (if is_root then some true else equals owner curUser)
