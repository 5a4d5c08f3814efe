-- ===== src/Users/Passwd/Tests.antt =====
-- Runs of flushUsers and loadUsers at concrete inputs: the users "root" with "0000" and "user" with
-- "1234", written over an old file of 40 bytes.
use hyu_ele3021_os.Base.{
  ℕ, suc, zero, ◌<◌, ◌≡◌, refl, true, List, [], ◌∷◌, ◌++◌, some, none, Bool, replicate, arith,
  Option,
}
use hyu_ele3021_os.CString.{strlen, strncpy, zero_fill}
use hyu_ele3021_os.Users.{LTable, row}
use hyu_ele3021_os.Users.Passwd.{load_users, load_loop, flush_users, flush_rows, flush_row}
use hyu_ele3021_os.Users.Passwd.Flush.{Rows}
use hyu_ele3021_os.Users.Passwd.RoundTrip.{Blank, load_users-flush_users}

abbrev root_name : List ℕ
root_name = 114 ∷ 111 ∷ 111 ∷ 116 ∷ []

abbrev zeros : List ℕ
zeros = 48 ∷ 48 ∷ 48 ∷ 48 ∷ []

abbrev user_name : List ℕ
user_name = 117 ∷ 115 ∷ 101 ∷ 114 ∷ []

abbrev digits : List ℕ
digits = 49 ∷ 50 ∷ 51 ∷ 52 ∷ []

abbrev table : LTable
table = record {
  user_idx = none;
  user_cnt = 2;
  usernames =
      (root_name ++ replicate 12 0) ∷ (user_name ++ replicate 12 0) ∷ replicate 8 (replicate 16 0);
  passwords = (zeros ++ replicate 12 0) ∷ (digits ++ replicate 12 0) ∷ replicate 8 (replicate 16 0);
}

abbrev both : List (List ℕ × List ℕ)
both = (root_name, zeros) ∷ (user_name, digits) ∷ []

abbrev empty : LTable
empty = record {
  user_idx = none;
  user_cnt = 0;
  usernames = replicate 10 (replicate 16 0);
  passwords = replicate 10 (replicate 16 0);
}

blank_row : (n j : ℕ) (r : List ℕ) → j < n → row (replicate n r) j ≡ r
blank_row zero j r low = absurd (omega arith)
blank_row (suc n) zero r low = refl
blank_row (suc n) (suc j) r low = blank_row n j r (omega arith)

empty-Blank : Blank empty 0
empty-Blank = record {
  name_rows = refl;
  password_rows = refl;
  blank = λ j from to. (blank_row 10 j (replicate 16 0) to, blank_row 10 j (replicate 16 0) to);
}

table-Rows : Rows table 0 both
table-Rows = (
  (ground arith, replicate 11 0, refl),
  (ground arith, replicate 11 0, refl),
  (omega arith, omega arith),
  (
    (ground arith, replicate 11 0, refl),
    (ground arith, replicate 11 0, refl),
    (omega arith, omega arith),
    tt,
  ),
)

load_users-flush_users_example :
    (file' : List ℕ) × (lt' : LTable) × (flush_users table true (replicate 40 9)
      ≡ some (file', true))
    × (load_users empty true file' ≡ some lt')
    × (lt'.user_cnt ≡ 2)
    × Rows lt' 0 both
load_users-flush_users_example =
    load_users-flush_users table empty both (replicate 40 9) refl (omega arith) (ground arith)
      table-Rows (omega arith) empty-Blank

-- A user "a-b" with the password "cd": the next start makes of it a user "a" with the password "b-cd".
abbrev dashed : LTable
dashed = record empty {
  user_cnt = 1;
  usernames = (97 ∷ 45 ∷ 98 ∷ replicate 13 0) ∷ replicate 9 (replicate 16 0);
  passwords = (99 ∷ 100 ∷ replicate 14 0) ∷ replicate 9 (replicate 16 0);
}

abbrev reloaded : Option (List ℕ × Bool) → Option LTable
reloaded none = none
reloaded (some (file, ok)) = load_users empty true file

dashed_splits :
    reloaded (flush_users dashed true [])
    ≡ some (record empty {
      user_cnt = 1;
      usernames = (97 ∷ replicate 15 0) ∷ replicate 9 (replicate 16 0);
      passwords = (98 ∷ 45 ∷ 99 ∷ 100 ∷ replicate 12 0) ∷ replicate 9 (replicate 16 0);
    })
unfolding load_users load_loop flush_users flush_rows flush_row strlen strncpy zero_fill
dashed_splits = refl
