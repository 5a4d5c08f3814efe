-- ===== src/Pipe/Window.antt =====
-- The bytes that lie in the ring of `Pipe` between two counters.
use hyu_ele3021_os.Base.{
  ℕ, zero, suc, ◌+◌, ◌%◌, ◌<◌, ◌≡◌, ◌≢◌, refl, ap, ◌∙◌, List, [], ◌∷◌, ◌++◌, arith, length, get_or,
  set, get_or-set_self, get_or-set_ne,
}
use hyu_ele3021_os.Pipe.{pipesize}

-- The `n` bytes from counter `r` on, going round at `pipesize`.
abbrev pub window : List ℕ → ℕ → ℕ → List ℕ
window b r zero = []
window b r (suc n) = get_or b (r % pipesize) 0 ∷ window b (r + 1) n

pub length-window : (b : List ℕ) (r n : ℕ) → length (window b r n) ≡ n
length-window b r zero = refl
length-window b r (suc n) = ap suc (length-window b (r + 1) n)

pub window_congr :
    (b : List ℕ) (r r' n : ℕ) → r % pipesize ≡ r' % pipesize → window b r n ≡ window b r' n
window_congr b r r' zero e = refl
window_congr b r r' (suc n) e = ground (arith, window_congr b (r + 1) (r' + 1) n)

-- A byte written outside a window leaves it alone.
window-set_ne :
    (b : List ℕ) (i c r n : ℕ)
    → i < pipesize
    → ((k : ℕ) → k < n → (r + k) % pipesize ≢ i)
    → window (set b i c) r n ≡ window b r n
window-set_ne b i c r zero h out = refl
window-set_ne b i c r (suc n) h out =
    let here : r % pipesize ≢ i = λ e. out 0 (omega arith) (omega arith) in
    let later : window (set b i c) (r + 1) n ≡ window b (r + 1) n =
      window-set_ne b i c (r + 1) n h (λ k lt e. out (k + 1) (omega arith) (omega arith)) in
    cc (later, get_or-set_ne b i (r % pipesize) c 0 (λ e. here (omega arith)))

window_last :
    (b : List ℕ) (r n : ℕ)
    → window b r (suc n) ≡ window b r n ++ get_or b ((r + n) % pipesize) 0 ∷ []
window_last b r zero = ap (λ k. get_or b (k % pipesize) 0 ∷ []) (omega arith)
window_last b r (suc n) =
    ap (λ t. get_or b (r % pipesize) 0 ∷ t)
      (window_last b (r + 1) n
        ∙ ap (λ k. window b (r + 1) n ++ get_or b (k % pipesize) 0 ∷ []) (omega arith))

-- A byte written just past a window that is not the whole ring extends it.
pub window-set :
    (b : List ℕ) (c r n : ℕ)
    → length b ≡ pipesize
    → n < pipesize
    → window (set b ((r + n) % pipesize) c) r (suc n) ≡ window b r n ++ c ∷ []
window-set b c r n len h =
    let i = (r + n) % pipesize in
    window_last (set b i c) r n
    ∙ cc (
      window-set_ne b i c r n (omega arith) (λ k lt e. absurd (omega arith)),
      get_or-set_self b i c 0 (omega arith),
    )
