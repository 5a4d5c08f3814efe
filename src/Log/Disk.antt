-- ===== src/Log/Disk.antt =====
-- A property of the disk after each first few of a list of writes: what every crash leaves.
use hyu_ele3021_os.Base.{ℕ, ◌≡◌, ◌≢◌, refl, List, [], ◌∷◌, ◌++◌, arith, zero, suc, take}
use hyu_ele3021_os.Log.{Block, Blocks, Write, apply}

unfoldable pub replay : Blocks → List Write → Blocks
replay d [] = d
replay d (w ∷ ws) = replay (apply d w) ws

abbrev pub Every : (Blocks → Type 0) → Blocks → List Write → Type 0
Every P d [] = P d
Every P d (w ∷ ws) = P d × Every P (apply d w) ws

pub replay-append :
    (d : Blocks) (ws vs : List Write) → replay d (ws ++ vs) ≡ replay (replay d ws) vs
unfolding replay
replay-append d [] vs = refl
replay-append d (w ∷ ws) vs = replay-append (apply d w) ws vs

pub Every-append :
    (P : Blocks → Type 0) (d : Blocks) (ws vs : List Write)
    → Every P d ws
    → Every P (replay d ws) vs
    → Every P d (ws ++ vs)
unfolding replay
Every-append P d [] vs h k = k
Every-append P d (w ∷ ws) vs h k = (h.0, Every-append P (apply d w) ws vs h.1 k)

pub Every-map :
    (P Q : Blocks → Type 0)
    → ((d : Blocks) → P d → Q d)
    → (d : Blocks) (ws : List Write) → Every P d ws
    → Every Q d ws
Every-map P Q f d [] h = f d h
Every-map P Q f d (w ∷ ws) h = (f d h.0, Every-map P Q f (apply d w) ws h.1)

-- The disk after the first `k` writes.
pub Every-take :
    (P : Blocks → Type 0) (d : Blocks) (ws : List Write) (k : ℕ)
    → Every P d ws
    → P (replay d (take k ws))
unfolding replay
Every-take P d [] zero h = h
Every-take P d [] (suc k) h = h
Every-take P d (w ∷ ws) zero h = h.0
Every-take P d (w ∷ ws) (suc k) h = Every-take P (apply d w) ws k h.1

pub Every-last :
    (P : Blocks → Type 0) (d : Blocks) (ws : List Write) → Every P d ws → P (replay d ws)
unfolding replay
Every-last P d [] h = h
Every-last P d (w ∷ ws) h = Every-last P (apply d w) ws h.1

pub apply_self : (d : Blocks) (b : ℕ) (x : Block) → apply d (b, x) b ≡ x
apply_self d b x = ground arith

pub apply_ne : (d : Blocks) (b : ℕ) (x : Block) (a : ℕ) → b ≢ a → apply d (b, x) a ≡ d a
apply_ne d b x a h = ground arith
