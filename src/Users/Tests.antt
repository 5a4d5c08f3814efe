-- ===== src/Users/Tests.antt =====
-- Runs of the user table at concrete inputs.
use hyu_ele3021_os.Base.{
  ℕ, zero, suc, ◌<◌, ◌≤◌, ◌≡◌, refl, subst, true, false, List, [], ◌∷◌, ◌++◌, some, none, replicate,
  arith,
}
use hyu_ele3021_os.CString.{strlen, strncpy, zero_fill, strncmp, equals}
use hyu_ele3021_os.CString.Laws.{Holds}
use hyu_ele3021_os.Users.{
  LTable, find_user, is_taken, put_user, add_user, copy_row, move_down, delete_user, sys_add_user,
  sys_delete_user, sys_login, whoami, checkmod, row, root,
}
use hyu_ele3021_os.Users.Rights.{delete_user-root, checkmod-granted}
use hyu_ele3021_os.Users.Login.{IsValid, add_user-login}

abbrev blank : List ℕ
blank = replicate 16 0

-- "0000" and "user", with their NULs
abbrev zeros : List ℕ
zeros = 48 ∷ 48 ∷ 48 ∷ 48 ∷ 0 ∷ []

abbrev user : List ℕ
user = 117 ∷ 115 ∷ 101 ∷ 114 ∷ 0 ∷ []

-- Only root exists, and nobody is logged in.
abbrev fresh : LTable
fresh = record {
  user_idx = none;
  user_cnt = 1;
  usernames = (root ++ replicate 11 0) ∷ replicate 9 blank;
  passwords = (zeros ++ replicate 11 0) ∷ replicate 9 blank;
}

abbrev two_users : LTable
two_users = record {
  user_idx = none;
  user_cnt = 2;
  usernames = (root ++ replicate 11 0) ∷ (user ++ replicate 11 0) ∷ replicate 8 blank;
  passwords = (zeros ++ replicate 11 0) ∷ (zeros ++ replicate 11 0) ∷ replicate 8 blank;
}

-- With nobody logged in a user can be added, and deleted again.
anyone_adds : sys_add_user fresh user zeros true true ≡ some (two_users, true)
unfolding sys_add_user add_user put_user is_taken strlen strncpy equals strncmp zero_fill
anyone_adds = refl

anyone_deletes : sys_delete_user two_users user true ≡ some (fresh, true)
unfolding sys_delete_user delete_user find_user move_down copy_row strlen strncpy equals strncmp
    zero_fill
anyone_deletes = refl

-- A row after the last user that is not blank: it still holds "0000" where the next password, "xy", is
-- put without a NUL, so that the login with it fails.
abbrev stale : LTable
stale = record fresh {
  passwords = (zeros ++ replicate 11 0) ∷ (zeros ++ replicate 11 0) ∷ replicate 8 blank;
}

abbrev xy : List ℕ
xy = 120 ∷ 121 ∷ 0 ∷ []

abbrev stale_added : LTable
stale_added = record stale {
  user_cnt = 2;
  usernames = (root ++ replicate 11 0) ∷ (user ++ replicate 11 0) ∷ replicate 8 blank;
  passwords =
      (zeros ++ replicate 11 0) ∷ (120 ∷ 121 ∷ 48 ∷ 48 ∷ replicate 12 0) ∷ replicate 8 blank;
}

stale_adds : add_user stale user xy true true ≡ some (stale_added, true)
unfolding add_user put_user is_taken strlen strncpy equals strncmp zero_fill
stale_adds = refl

stale_login : sys_login stale_added user xy ≡ some (stale_added, false)
unfolding sys_login find_user strlen equals strncmp
stale_login = refl

root_stays : sys_delete_user two_users root true ≡ some (two_users, false)
unfolding sys_delete_user delete_user find_user strlen equals strncmp
root_stays = refl

user_logs_in : sys_login two_users user zeros ≡ some (record two_users { user_idx = some 1 }, true)
unfolding sys_login find_user strlen equals strncmp
user_logs_in = refl

-- A file of root with mode 56 (rwx---) gives the user nothing.
user_denied : checkmod (record two_users { user_idx = some 1 }) 2 56 root ≡ some 0
unfolding checkmod whoami copy_row strlen strncpy equals strncmp
user_denied = refl

abbrev root_text : List ℕ
root_text = 114 ∷ 111 ∷ 111 ∷ 116 ∷ []

abbrev user_text : List ℕ
user_text = 117 ∷ 115 ∷ 101 ∷ 114 ∷ []

abbrev zeros_text : List ℕ
zeros_text = 48 ∷ 48 ∷ 48 ∷ 48 ∷ []

root_row-Holds : Holds (row fresh.usernames 0) root_text
root_row-Holds = (ground arith, replicate 11 0, refl)

get_or-replicate_below : (n i : ℕ) → i < n → row (replicate n blank) i ≡ blank
get_or-replicate_below zero i h = absurd (omega arith)
get_or-replicate_below (suc n) zero h = refl
get_or-replicate_below (suc n) (suc i) h = get_or-replicate_below n i (omega arith)

-- The rows of `fresh` from 1 on, for names and for passwords.
blank_row : (first : List ℕ) (i : ℕ) → 1 ≤ i → i < 10 → row (first ∷ replicate 9 blank) i ≡ blank
blank_row first zero from to = absurd (omega arith)
blank_row first (suc i) from to = get_or-replicate_below 9 i (omega arith)

fresh-IsValid : IsValid fresh
fresh-IsValid = record {
  name_rows = refl;
  password_rows = refl;
  few = omega arith;
  named = λ i h.
      let first : 0 ≡ i = omega arith in
      (root_text, subst (λ n. Holds (row fresh.usernames n) root_text) first root_row-Holds);
  blank_name = λ i from to. blank_row _ i from to;
  blank_password = λ i from to. blank_row _ i from to;
}

no_user : (i : ℕ) → i < 1 → equals (row fresh.usernames i) user ≡ some false
unfolding equals strlen strncmp
no_user zero h = refl
no_user (suc i) h = absurd (omega arith)

add_user-login_example :
    (lt' : LTable) × (add_user fresh user zeros true true ≡ some (lt', true))
    × (sys_login lt' user zeros ≡ some (record lt' { user_idx = some 1 }, true))
    × IsValid lt'
    × (lt'.user_cnt ≡ 2)
add_user-login_example =
    add_user-login fresh user zeros user_text zeros_text true true fresh-IsValid (omega arith)
      (ground arith, [], refl) (ground arith, [], refl) refl refl no_user

delete_user-root_example : delete_user two_users root true ≡ some (two_users, false)
delete_user-root_example =
    delete_user-root two_users root root_text 1 true refl (ground arith, replicate 11 0, refl)
      (ground arith, [], refl)

abbrev as_user : LTable
as_user = record two_users { user_idx = some 1 }

-- The user's own file with mode 52: rw- for the owner, r-- for others.
checkmod-granted_example : checkmod as_user 2 52 user ≡ some 6
checkmod-granted_example =
    checkmod-granted as_user 1 2 52 user user_text user_text (omega arith) refl
      (ground arith, replicate 11 0, refl) (omega arith) (ground arith, [], refl) (λ e. omega arith)
