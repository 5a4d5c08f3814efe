-- ===== src/CString.antt =====
-- xv6-public/string.c: the string functions. A pointer is the list of the bytes from it to the end of
-- its array; `none` is an access past that end. A difference of bytes is an `int` as a bit pattern.
pub mod Laws
mod Tests
use hyu_ele3021_os.Base.Words.{sub32}
use hyu_ele3021_os.Base.{
  ℕ, zero, suc, ◌+◌, Bool, true, false, not, ◌&&◌, ◌||◌, Option, none, some, List, [], ◌∷◌, ◌==◌,
  ltb, length, set, if◌then◌else◌,
}

infixl 5 ◌>>=◌
abbrev pub ◌>>=◌ : {A B : Type 0} → Option A → (A → Option B) → Option B
none >>= f = none
some a >>= f = f a

abbrev pub prepend : ℕ → Option (List ℕ) → Option (List ℕ)
prepend c none = none
prepend c (some s) = some (c ∷ s)

abbrev pub succ : Option ℕ → Option ℕ
succ none = none
succ (some n) = some (suc n)

-- `s[i] = c`
abbrev pub store : List ℕ → ℕ → ℕ → Option (List ℕ)
store s i c = if ltb i (length s) then some (set s i c) else none

unfoldable pub strlen : List ℕ → Option ℕ
strlen [] = none
strlen (c ∷ s) = if c == 0 then some 0 else succ (strlen s)

unfoldable pub memcmp : List ℕ → List ℕ → ℕ → Option ℕ
memcmp p q zero = some 0
memcmp [] q (suc n) = none
memcmp (a ∷ p) [] (suc n) = none
memcmp (a ∷ p) (b ∷ q) (suc n) = if a == b then memcmp p q n else some (sub32 a b)

unfoldable pub strncmp : List ℕ → List ℕ → ℕ → Option ℕ
strncmp p q zero = some 0
strncmp [] q (suc n) = none
strncmp (a ∷ p) [] (suc n) = none
strncmp (a ∷ p) (b ∷ q) (suc n) = if not (a == 0) && a == b then strncmp p q n else some (sub32 a b)

-- The second loop of `strncpy`.
unfoldable pub zero_fill : List ℕ → ℕ → Option (List ℕ)
zero_fill s zero = some s
zero_fill [] (suc n) = none
zero_fill (x ∷ s) (suc n) = prepend 0 (zero_fill s n)

-- The array at `s` after `strncpy(s, t, n)`.
unfoldable pub strncpy : List ℕ → List ℕ → ℕ → Option (List ℕ)
strncpy s t zero = some s
strncpy [] t (suc n) = none
strncpy (x ∷ s) [] (suc n) = none
strncpy (x ∷ s) (c ∷ t) (suc n) =
    let rest = strncpy s t n in if c == 0 then prepend 0 (zero_fill s n) else prepend c rest

-- `safestrcpy(s, t, n)`: after a NUL is copied, one more is written behind it.
unfoldable pub safestrcpy : List ℕ → List ℕ → ℕ → Option (List ℕ)
safestrcpy s t zero = some s
safestrcpy s t (suc zero) = store s 0 0
safestrcpy [] t (suc (suc n)) = none
safestrcpy (x ∷ s) [] (suc (suc n)) = none
safestrcpy (x ∷ s) (c ∷ t) (suc (suc n)) =
    let rest = safestrcpy s t (suc n) in if c == 0 then prepend 0 (store s 0 0) else prepend c rest

unfoldable pub equals : List ℕ → List ℕ → Option Bool
equals s t = do
  m ← strlen s
  n ← strlen t
  if m == n then (do r ← strncmp s t m; some (r == 0)) else some false
