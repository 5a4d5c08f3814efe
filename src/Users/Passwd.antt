-- ===== src/Users/Passwd.antt =====
-- `loadUsers` and `flushUsers` of xv6-public/sysfile.c: the user table and the bytes of /passwd, like
-- "root-0000/user-1234/". Whether the file can be opened, looked up and cleared is an argument, and its
-- writes succeed.
pub mod Flush
pub mod Load
pub mod Buffer
pub mod RoundTrip
mod Tests
use hyu_ele3021_os.Base.{
  ℕ, zero, suc, ◌+◌, ◌-◌, ◌*◌, Bool, true, false, not, ◌&&◌, ◌||◌, Option, none, some, List, [],
  ◌∷◌, ◌++◌, ◌==◌, ltb, if◌then◌else◌, length, take, drop, set, replicate,
}
use hyu_ele3021_os.CString.{◌>>=◌, strlen, strncpy, store}
use hyu_ele3021_os.Users.{LTable, row, max_user, max_len}

-- '-' and '/'
abbrev pub dash : ℕ
dash = 45

abbrev pub slash : ℕ
slash = 47

-- From `p` on: the string `src` is copied, the byte `c` is put behind it, and `p` moves behind that. The
-- bytes that `p` passed, and the rest of the buffer.
abbrev pub write_field : List ℕ → List ℕ → ℕ → Option (List ℕ × List ℕ)
write_field p src c = strlen src >>= λ len. strncpy p src len >>= λ p'.
    store (drop len p') 0 c >>= λ q. some (take len p' ++ c ∷ [], drop 1 q)

-- A round of the loop of `flushUsers`: the buffer, and what is written to the file.
unfoldable pub flush_row : List ℕ → List ℕ → List ℕ → Option (List ℕ × List ℕ)
flush_row buf username password = write_field buf username dash >>= λ r.
    write_field r.1 password slash >>= λ r'. store r'.1 0 0 >>= λ q.
    strlen (r.0 ++ (r'.0 ++ q)) >>= λ n. some (r.0 ++ (r'.0 ++ q), take n (r.0 ++ (r'.0 ++ q)))

-- The loop for `k` users from `i` on: all that is written.
unfoldable pub flush_rows : ℕ → ℕ → LTable → List ℕ → Option (List ℕ)
flush_rows zero i lt buf = some []
flush_rows (suc k) i lt buf = flush_row buf (row lt.usernames i) (row lt.passwords i) >>= λ r.
    flush_rows k (i + 1) lt r.0 >>= λ more. some (r.1 ++ more)

-- The file after `cleari` and the writes, and whether `flushUsers` returns 0.
unfoldable pub flush_users : LTable → Bool → List ℕ → Option (List ℕ × Bool)
flush_users lt opened file =
    if opened
    then (flush_rows lt.user_cnt 0 lt (replicate (max_len * 2 + 3) 0) >>= λ written.
        some (written ++ drop (length written) (replicate (length file) 0), true))
    else some (file, false)

-- `rows[idx][offset] = c`
abbrev pub put_char : List (List ℕ) → ℕ → ℕ → ℕ → Option (List (List ℕ))
put_char rows idx offset c = store (row rows idx) offset c >>= λ r. some (set rows idx r)

-- The loop of `loadUsers` over the rest of `buf`; at its end `user_cnt` is `idx`.
unfoldable pub load_loop : List ℕ → LTable → ℕ → Bool → ℕ → Option LTable
load_loop [] lt idx pw offset = some (record lt { user_cnt = idx })
load_loop (c ∷ buf) lt idx pw offset =
    if (idx == max_user) || (c == 0) then some (record lt { user_cnt = idx }) else elim pw [
      | false ↦
          if c == dash
          then load_loop buf lt idx true 0
          else (put_char lt.usernames idx offset c >>= λ rows.
              load_loop buf (record lt { usernames = rows }) idx false (offset + 1))
      | true ↦
          if c == slash
          then load_loop buf lt (idx + 1) false 0
          else (put_char lt.passwords idx offset c >>= λ rows.
              load_loop buf (record lt { passwords = rows }) idx true (offset + 1))
    ]

abbrev pub buf_size : ℕ
buf_size = (max_len * 2 + 2) * max_user + 1

-- `none` is a panic, or a name or password that is longer than its row.
unfoldable pub load_users : LTable → Bool → List ℕ → Option LTable
load_users lt opened file =
    let read = take buf_size file in
    let buf = read ++ drop (length read) (replicate buf_size 0) in
    if opened
    then (if ltb 6 (length read)
        then load_loop buf lt 0 false 0
        else some (record lt { user_cnt = 0 }))
    else none
