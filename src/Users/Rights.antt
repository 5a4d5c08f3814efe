-- ===== src/Users/Rights.antt =====
-- What users may do: root stays, and the mode of a file decides for its owner, root and others.
use hyu_ele3021_os.Base.{
  ℕ, suc, ◌+◌, ◌≤◌, ◌<◌, ◌≡◌, ◌≢◌, refl, ◌∙◌, ap, Bool, true, false, ◌||◌, some, List, [], ◌∷◌,
  ◌++◌, arith, if◌then◌else◌, ◌==◌, ltb, set, length, length-append, replicate,
}
use hyu_ele3021_os.CString.{strlen, strncpy, equals}
use hyu_ele3021_os.CString.Laws.{Holds, same_text, same_text_refl, strncpy_text, equals-same_text}
use hyu_ele3021_os.Users.{
  LTable, max_len, row, find_user, copy_row, delete_user, whoami, checkmod, has_bit, granted, root,
}
use hyu_ele3021_os.Users.Login.{drop-replicate, turn-hit, strlen-Holds}

-- User 0, who is root, cannot be deleted: `deleteUser` of that user's name changes nothing and fails,
-- whoever calls it.
pub delete_user-root :
    (lt : LTable) (username t : List ℕ) (n : ℕ) (flushed : Bool)
    → lt.user_cnt ≡ suc n
    → Holds (row lt.usernames 0) t
    → Holds username t
    → delete_user lt username flushed ≡ some (lt, false)
unfolding delete_user find_user
delete_user-root lt username t n flushed some_user mine h =
    rw (ap (λ k. find_user k 0 lt username) some_user ∙ found, delete_user) refl
  where
    found : find_user (suc n) 0 lt username ≡ some (some 0)
    found =
        turn-hit (some (some 0)) (find_user n 1 lt username) (strlen (row lt.usernames 0))
          (strlen username) (equals (row lt.usernames 0) username) (length t)
          (strlen-Holds _ t mine) (strlen-Holds username t h)
          (equals-same_text t t mine h ∙ ap some (same_text_refl t))

set_nul : (s z : List ℕ) → set (s ++ 0 ∷ z) (length s) 0 ≡ s ++ 0 ∷ z
set_nul [] z = refl
set_nul (c ∷ s) z = ap (λ l. c ∷ l) (set_nul s z)

-- `whoami` into a blank buffer gives the name of the user who is logged in.
whoami-Holds :
    (lt : LTable) (i : ℕ) (s : List ℕ)
    → 0 < lt.user_cnt
    → lt.user_idx ≡ some i
    → Holds (row lt.usernames i) s
    → length s ≤ max_len
    → (b : List ℕ) × (whoami lt (replicate (max_len + 1) 0) ≡ some b) × Holds b s
unfolding whoami copy_row
whoami-Holds lt i s users now (text, rest, e) short =
    let (zeros, z) = drop-replicate (length s) (max_len + 1) (omega arith) in
    let known : (lt.user_cnt == 0) ≡ false = ground arith in
    let copied : strncpy (replicate (max_len + 1) 0) (s ++ 0 ∷ rest) (length s)
        ≡ some (s ++ 0 ∷ zeros) =
      strncpy_text (replicate (max_len + 1) 0) s rest text (omega arith)
      ∙ ap (λ l. some (s ++ l)) z in
    let inside : ltb (length s) (length (s ++ 0 ∷ zeros)) ≡ true =
      ground (arith, length-append s (0 ∷ zeros)) in
    let len = strlen-Holds (s ++ 0 ∷ rest) s (text, rest, refl) in
    (
      s ++ 0 ∷ zeros,
      rw (known, now, whoami, copy_row, e, len, copied, inside) (ap some (set_nul s zeros)),
      (text, zeros, refl),
    )

-- For a file that is no device, `checkmod` grants the user who is logged in the owner's bits of its
-- mode if the user's name is the owner's or "root", and the others' bits if not.
pub checkmod-granted :
    (lt : LTable) (i type perm : ℕ) (owner s o : List ℕ)
    → 0 < lt.user_cnt
    → lt.user_idx ≡ some i
    → Holds (row lt.usernames i) s
    → length s ≤ max_len
    → Holds owner o
    → type ≢ 3
    → checkmod lt type perm owner
      ≡ some (
          if same_text o s || same_text (114 ∷ 111 ∷ 111 ∷ 116 ∷ []) s
          then granted (has_bit perm 32) (has_bit perm 16) (has_bit perm 8)
          else granted (has_bit perm 4) (has_bit perm 2) (has_bit perm 1))
unfolding checkmod
checkmod-granted lt i type perm owner s o users now mine short ho file =
    let (b, run, hb) = whoami-Holds lt i s users now mine short in
    let no_device : (type == 3) ≡ false = ground arith in
    let is_root =
      equals-same_text {b = root} {b' = b} (114 ∷ 111 ∷ 111 ∷ 116 ∷ []) s (ground arith, [], refl)
        hb in
    rw (no_device, run, equals-same_text o s ho hb, is_root, checkmod) refl
