-- ===== src/Users/Login.antt =====
-- A user that `addUser` has added can log in.
use hyu_ele3021_os.Base.{
  ℕ, zero, suc, ◌+◌, ◌≤◌, ◌<◌, ◌≡◌, refl, sym, ◌∙◌, ap, subst, Bool, true, false, ◌&&◌, Option,
  none, some, List, [], ◌∷◌, ◌++◌, arith, if◌then◌else◌, ◌==◌, set, length, replicate, drop,
  get_or-set_self, get_or-set_ne, length-set, Bool-cases, inl, inr,
}
use hyu_ele3021_os.CString.{◌>>=◌, strlen, strncpy, equals}
use hyu_ele3021_os.CString.Laws.{Holds, same_text_refl, strlen_text, strncpy_text, equals-same_text}
use hyu_ele3021_os.Users.{
  LTable, max_user, max_len, row, find_user, is_taken, out_of_range, put_user, add_user, sys_login,
}

-- Every user's name is a string in its row, and all rows after the last user are blank.
pub record IsValid (lt : LTable) : Type 0 where
  pub name_rows : length lt.usernames ≡ max_user
  pub password_rows : length lt.passwords ≡ max_user
  pub few : lt.user_cnt ≤ max_user
  pub named : (i : ℕ) → i < lt.user_cnt → (s : List ℕ) × Holds (row lt.usernames i) s
  pub blank_name :
      (i : ℕ) → lt.user_cnt ≤ i → i < max_user → row lt.usernames i ≡ replicate (max_len + 1) 0
  pub blank_password :
      (i : ℕ) → lt.user_cnt ≤ i → i < max_user → row lt.passwords i ≡ replicate (max_len + 1) 0

pub drop-replicate : (n m : ℕ) → n < m → (rest : List ℕ) × (drop n (replicate m 0) ≡ 0 ∷ rest)
drop-replicate n zero h = absurd (omega arith)
drop-replicate zero (suc m) h = (replicate m 0, refl)
drop-replicate (suc n) (suc m) h = drop-replicate n m (omega arith)

-- A short string copied into a blank row.
blank_row-Holds :
    (b s : List ℕ)
    → Holds b s
    → length s ≤ max_len
    → (r : List ℕ) × (strncpy (replicate (max_len + 1) 0) b (length s) ≡ some r) × Holds r s
blank_row-Holds b s (text, rest, e) short =
    let (zeros, z) = drop-replicate (length s) (max_len + 1) (omega arith) in
    (
      s ++ drop (length s) (replicate (max_len + 1) 0),
      rw e (strncpy_text (replicate (max_len + 1) 0) s rest text (omega arith)),
      (text, zeros, ap (λ l. s ++ l) z),
    )

pub strlen-Holds : (b s : List ℕ) → Holds b s → strlen b ≡ some (length s)
strlen-Holds b s (text, rest, e) = rw e (strlen_text s rest text)

-- The users from `i` on, `k` of them, have names other than `name`.
abbrev pub Others : ℕ → ℕ → LTable → List ℕ → Type 0
Others k i lt name =
    (j : ℕ)
    → i ≤ j
    → j < i + k
    → (s : List ℕ) × (strlen (row lt.usernames j) ≡ some (length s))
      × (equals (row lt.usernames j) name ≡ some false)

is_taken-Others :
    (k i : ℕ) (lt : LTable) (name : List ℕ) → Others k i lt name → is_taken k i lt name ≡ some false
unfolding is_taken
is_taken-Others zero i lt name others = refl
is_taken-Others (suc k) i lt name others =
    let (s, len, miss) = others i (omega arith) (omega arith) in
    let rest : Others k (i + 1) lt name = λ j from to. others j (omega arith) (omega arith) in
    rw miss (is_taken-Others k (i + 1) lt name rest)

-- One turn of the search, at a user of another name and at the user of that name.
turn-miss :
    (a rest : Option (Option ℕ)) (m n : Option ℕ) (q : Option Bool) (l l' : ℕ)
    → m ≡ some l
    → n ≡ some l'
    → q ≡ some false
    → (m >>= λ x. n >>= λ y. if x == y then (q >>= λ e. if e then a else rest) else rest) ≡ rest
turn-miss a rest m n q l l' em en eq = rw (em, en, eq) (ground arith)

pub turn-hit :
    (a rest : Option (Option ℕ)) (m n : Option ℕ) (q : Option Bool) (l : ℕ)
    → m ≡ some l
    → n ≡ some l
    → q ≡ some true
    → (m >>= λ x. n >>= λ y. if x == y then (q >>= λ e. if e then a else rest) else rest) ≡ a
turn-hit a rest m n q l em en eq = rw (em, en, eq) (ground arith)

-- The search passes over users of other names up to the one of that name.
find_user-hit :
    (k i : ℕ) (lt : LTable) (name t : List ℕ)
    → Holds name t
    → Others k i lt name
    → Holds (row lt.usernames (i + k)) t
    → find_user (suc k) i lt name ≡ some (some (i + k))
unfolding find_user
find_user-hit zero i lt name t h others here =
    let at : i + 0 ≡ i = omega arith in
    let mine = subst (λ n. Holds (row lt.usernames n) t) at here in
    turn-hit (some (some i)) (some none) (strlen (row lt.usernames i)) (strlen name)
      (equals (row lt.usernames i) name) (length t) (strlen-Holds _ t mine) (strlen-Holds name t h)
      (equals-same_text t t mine h ∙ ap some (same_text_refl t))
    ∙ ap (λ n. some (some n)) (sym at)
find_user-hit (suc k) i lt name t h others here =
    let (s, len, miss) = others i (omega arith) (omega arith) in
    let rest : Others k (i + 1) lt name = λ j from to. others j (omega arith) (omega arith) in
    let at : i + suc k ≡ i + 1 + k = omega arith in
    turn-miss (some (some i)) (find_user (suc k) (i + 1) lt name) (strlen (row lt.usernames i))
      (strlen name) (equals (row lt.usernames i) name) (length s) (length t) len
      (strlen-Holds name t h) miss
    ∙ find_user-hit k (i + 1) lt name t h rest (subst (λ n. Holds (row lt.usernames n) t) at here)
    ∙ ap (λ n. some (some n)) (sym at)

sys_login-found :
    (lt : LTable) (name password : List ℕ) (i : ℕ)
    → find_user lt.user_cnt 0 lt name ≡ some (some i)
    → equals (row lt.passwords i) password ≡ some true
    → sys_login lt name password ≡ some (record lt { user_idx = some i }, true)
unfolding sys_login
sys_login-found lt name password i found same = rw (found, same, sys_login) refl

-- With new rows for the next user, and one user more, that user can log in.
login-added :
    (lt : LTable) (username password u p r r' : List ℕ)
    → lt.user_cnt < length lt.usernames
    → lt.user_cnt < length lt.passwords
    → Holds username u
    → Holds password p
    → Others lt.user_cnt 0 lt username
    → Holds r u
    → Holds r' p
    → let lt' : LTable = record lt {
      user_cnt = lt.user_cnt + 1;
      usernames = set lt.usernames lt.user_cnt r;
      passwords = set lt.passwords lt.user_cnt r';
    } in
      sys_login lt' username password ≡ some (record lt' { user_idx = some lt.user_cnt }, true)
login-added lt username password u p r r' room room' hu hp old hr hr' =
    sys_login-found lt' username password lt.user_cnt
      (ap (λ n. find_user n 0 lt' username) one_more
        ∙ find_user-hit lt.user_cnt 0 lt' username u hu kept
            (subst (λ b. Holds b u) (sym name_row) hr)
        ∙ ap (λ n. some (some n)) first)
      (equals-same_text p p (subst (λ b. Holds b p) (sym password_row) hr') hp
        ∙ ap some (same_text_refl p))
  where
    lt' : LTable
    lt' = record lt {
      user_cnt = lt.user_cnt + 1;
      usernames = set lt.usernames lt.user_cnt r;
      passwords = set lt.passwords lt.user_cnt r';
    }

    one_more : lt.user_cnt + 1 ≡ suc lt.user_cnt
    one_more = omega arith

    first : 0 + lt.user_cnt ≡ lt.user_cnt
    first = omega arith

    name_row : row lt'.usernames (0 + lt.user_cnt) ≡ r
    name_row = ap (row lt'.usernames) first ∙ get_or-set_self lt.usernames lt.user_cnt r [] room

    password_row : row lt'.passwords lt.user_cnt ≡ r'
    password_row = get_or-set_self lt.passwords lt.user_cnt r' [] room'

    kept : Others lt.user_cnt 0 lt' username
    kept j from to =
        let (s, len, miss) = old j from to in
        let same : row lt'.usernames j ≡ row lt.usernames j =
          get_or-set_ne lt.usernames lt.user_cnt j r [] (λ e. omega arith) in
        (s, ap strlen same ∙ len, ap (λ b. equals b username) same ∙ miss)

-- With new rows for the next user, and one user more, the table is still valid.
added-IsValid :
    (lt : LTable) (u r r' : List ℕ)
    → IsValid lt
    → lt.user_cnt < max_user
    → Holds r u
    → IsValid (record lt {
      user_cnt = lt.user_cnt + 1;
      usernames = set lt.usernames lt.user_cnt r;
      passwords = set lt.passwords lt.user_cnt r';
    })
added-IsValid lt u r r' v room hr = record {
  name_rows = length-set lt.usernames lt.user_cnt r ∙ v.name_rows;
  password_rows = length-set lt.passwords lt.user_cnt r' ∙ v.password_rows;
  few = omega (arith, room);
  named = λ i low. elim (Bool-cases (i == lt.user_cnt)) [
    | inl new ↦
        let at : i ≡ lt.user_cnt = ground (arith, new) in
        let here : row (set lt.usernames lt.user_cnt r) i ≡ r =
          ap (row (set lt.usernames lt.user_cnt r)) at
          ∙ get_or-set_self lt.usernames lt.user_cnt r [] (omega (arith, v.name_rows)) in
        (u, subst (λ b. Holds b u) (sym here) hr)
    | inr old ↦
        let (s, h) = v.named i (ground (arith, old, low)) in
        let there : row (set lt.usernames lt.user_cnt r) i ≡ row lt.usernames i =
          get_or-set_ne lt.usernames lt.user_cnt i r [] (ground (arith, old)) in
        (s, subst (λ b. Holds b s) (sym there) h)
  ];
  blank_name = λ i from to.
      get_or-set_ne lt.usernames lt.user_cnt i r [] (λ e. omega arith)
      ∙ v.blank_name i (omega arith) to;
  blank_password = λ i from to.
      get_or-set_ne lt.passwords lt.user_cnt i r' [] (λ e. omega arith)
      ∙ v.blank_password i (omega arith) to;
}

-- A new user can log in, if all rows after the last user are blank: then `addUser` with room left, of a
-- name that `equals` finds at no user and a password, both of 2 to 15 bytes, stays within its arrays
-- and stores them, `sys_login` with them succeeds and makes the new user the current one, and all rows
-- after the new user are blank again, so that the next user can be added.
pub add_user-login :
    (lt : LTable) (username password u p : List ℕ) (flushed home : Bool)
    → IsValid lt
    → lt.user_cnt < max_user
    → Holds username u
    → Holds password p
    → out_of_range (length u) ≡ false
    → out_of_range (length p) ≡ false
    → ((i : ℕ) → i < lt.user_cnt → equals (row lt.usernames i) username ≡ some false)
    → (lt' : LTable) × (add_user lt username password flushed home ≡ some (lt', flushed && home))
      × (sys_login lt' username password ≡ some (record lt' { user_idx = some lt.user_cnt }, true))
      × IsValid lt'
      × (lt'.user_cnt ≡ lt.user_cnt + 1)
unfolding add_user put_user
add_user-login lt username password u p flushed home v room hu hp range range' fresh =
    let (r, copied, name_row) = blank_row-Holds username u hu (ground (arith, range)) in
    let (r', copied', password_row) = blank_row-Holds password p hp (ground (arith, range')) in
    let lt' : LTable = record lt {
      user_cnt = lt.user_cnt + 1;
      usernames = set lt.usernames lt.user_cnt r;
      passwords = set lt.passwords lt.user_cnt r';
    } in
    let free = is_taken-Others lt.user_cnt 0 lt username old in
    let open_row : (lt.user_cnt == max_user) ≡ false = ground arith in
    (
      lt',
      rw
          (
            open_row,
            strlen-Holds username u hu,
            strlen-Holds password p hp,
            range,
            range',
            free,
            v.blank_name lt.user_cnt (omega arith) room,
            v.blank_password lt.user_cnt (omega arith) room,
            copied,
            copied',
            add_user,
            put_user,
          )
          refl,
      login-added lt username password u p r r' (omega (arith, v.name_rows))
          (omega (arith, v.password_rows)) hu hp old name_row password_row,
      added-IsValid lt u r r' v room name_row,
      refl,
    )
  where
    old : Others lt.user_cnt 0 lt username
    old j from to =
        let (s, h) = v.named j (omega arith) in (s, strlen-Holds _ s h, fresh j (omega arith))
