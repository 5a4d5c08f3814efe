-- ===== src/CString/Tests.antt =====
-- Runs of the string functions at concrete inputs.
use hyu_ele3021_os.Base.{ℕ, false, none, some, List, [], ◌∷◌, ◌≡◌, refl, arith}
use hyu_ele3021_os.CString.{strlen, safestrcpy, equals, memcmp}
use hyu_ele3021_os.CString.Laws.{Holds, IsText, equals-same_text, safestrcpy-Holds}

abbrev root : List ℕ
root = 114 ∷ 111 ∷ 111 ∷ 116 ∷ []

abbrev rook : List ℕ
rook = 114 ∷ 111 ∷ 111 ∷ 107 ∷ []

abbrev root_array : List ℕ
root_array = 114 ∷ 111 ∷ 111 ∷ 116 ∷ 0 ∷ 9 ∷ []

abbrev rook_array : List ℕ
rook_array = 114 ∷ 111 ∷ 111 ∷ 107 ∷ 0 ∷ []

root-IsText : IsText root
root-IsText = ground arith

rook-IsText : IsText rook
rook-IsText = ground arith

equals-same_text_example : equals root_array rook_array ≡ some false
equals-same_text_example =
    equals-same_text root rook (root-IsText, 9 ∷ [], refl) (rook-IsText, [], refl)

-- At most three bytes and a NUL into an array of six.
safestrcpy-Holds_example :
    (b : List ℕ) × (safestrcpy (7 ∷ 7 ∷ 7 ∷ 7 ∷ 7 ∷ 7 ∷ []) root_array 4 ≡ some b)
    × Holds b (114 ∷ 111 ∷ 111 ∷ [])
safestrcpy-Holds_example =
    safestrcpy-Holds (7 ∷ 7 ∷ 7 ∷ 7 ∷ 7 ∷ 7 ∷ []) root (9 ∷ []) 3 root-IsText (omega arith)

strlen_unterminated : strlen root ≡ none
unfolding strlen
strlen_unterminated = refl

memcmp_wraps : memcmp (1 ∷ []) (2 ∷ []) 1 ≡ some 4294967295
unfolding memcmp
memcmp_wraps = refl
