-- ===== src/Prelude/Window.antt =====
-- The bytes of a file from an offset on, with zeros past its end: what a reply of a fixed length
-- is made of.
use Prim.Native.Nat.{ℕ, zero, suc, ◌+◌, ◌-◌, min, ◌≤◌, ◌<◌}
use mathlib.Core.Path.{◌≡◌, refl, sym, ap, ap₂, ◌∙◌}
use mathlib.Core.List.{List, [], ◌∷◌, ◌++◌, append-nil}
use Prim.Native.Nat.add
use native.Mathlib.Nat.{add-zero, add-suc, sub-zero}
use native.Mathlib.Omega.{arith}
use ps3netsrv.Prelude.Lists.{length, length-take, length-drop, take, drop, replicate, get_or}

-- `n` bytes of `xs` from offset `i` on; a byte past the end counts as zero.
unfoldable pub window : List ℕ → ℕ → ℕ → List ℕ
window xs i zero = []
window xs i (suc n) = get_or xs i 0 ∷ window xs (suc i) n

pub length-window : (xs : List ℕ) (i n : ℕ) → length (window xs i n) ≡ n
unfolding window
length-window xs i zero = refl
length-window xs i (suc n) = ap suc (length-window xs (suc i) n)

pub window-zero : (xs : List ℕ) (i : ℕ) → window xs i 0 ≡ []
unfolding window
window-zero xs i = refl

-- Two windows side by side are one.
pub window-add :
    (xs : List ℕ) (i m n : ℕ) → window xs i (m + n) ≡ window xs i m ++ window xs (i + m) n
unfolding window
window-add xs i zero n = rw (add.zero n, add-zero i)
window-add xs i (suc m) n =
    rw (add.suc m n, add-suc i m, ← add.suc i m)
      (ap (λ t. get_or xs i 0 ∷ t) (window-add xs (suc i) m n))

pub window-cons : (x : ℕ) (xs : List ℕ) (i n : ℕ) → window (x ∷ xs) (suc i) n ≡ window xs i n
unfolding window
window-cons x xs i zero = refl
window-cons x xs i (suc n) = ap (λ t. get_or xs i 0 ∷ t) (window-cons x xs (suc i) n)

window-nil : (i j n : ℕ) → window [] i n ≡ window [] j n
unfolding window
window-nil i j zero = refl
window-nil i j (suc n) = ap (λ t. 0 ∷ t) (window-nil (suc i) (suc j) n)

zeros-window : (n i : ℕ) → replicate n 0 ≡ window [] i n
unfolding window
zeros-window zero i = refl
zeros-window (suc n) i = ap (λ t. 0 ∷ t) (zeros-window n (suc i))

sub-suc-suc : (n m : ℕ) → suc n - suc m ≡ n - m
sub-suc-suc n m = omega arith

pub window-drop : (xs : List ℕ) (i n : ℕ) → window xs i n ≡ window (drop i xs) 0 n
window-drop xs zero n = refl
window-drop [] (suc i) n = window-nil (suc i) 0 n
window-drop (x ∷ xs) (suc i) n = window-cons x xs i n ∙ window-drop xs i n

-- What a read delivers, filled up with zeros, is the window.
pub window-take :
    (xs : List ℕ) (n : ℕ) → take n xs ++ replicate (n - length (take n xs)) 0 ≡ window xs 0 n
unfolding window
window-take xs zero = refl
window-take [] (suc n) = rw sub-zero (ap (λ t. 0 ∷ t) (zeros-window n 1))
window-take (x ∷ xs) (suc n) =
    ap (λ t. x ∷ t) (rw sub-suc-suc (window-take xs n ∙ sym (window-cons x xs 0 n)))

pub get-window :
    (xs : List ℕ) (i n j : ℕ) → j < n → get_or (window xs i n) j 0 ≡ get_or xs (i + j) 0
unfolding window
get-window xs i zero j h = absurd (omega arith)
get-window xs i (suc n) zero h = rw (add-zero i)
get-window xs i (suc n) (suc j) h =
    rw (add-suc i j, ← add.suc i j) (get-window xs (suc i) n j (omega arith))

-- A window of a window.
pub window-window :
    (xs : List ℕ) (i n j m : ℕ) → j + m ≤ n → window (window xs i n) j m ≡ window xs (i + j) m
unfolding window
window-window xs i n j zero h = refl
window-window xs i n j (suc m) h =
    ap₂ (λ (x : ℕ) (t : List ℕ). x ∷ t) (get-window xs i n j (omega arith))
      (rw add-suc at (window-window xs i n (suc j) m (omega arith)))

none_missing : (xs : List ℕ) (i n : ℕ) → i + n ≤ length xs → n - min n (length xs - i) ≡ 0
none_missing xs i n h = omega arith

-- Inside the list a window is what take and drop give.
pub take-drop-window :
    (xs : List ℕ) (i n : ℕ) → i + n ≤ length xs → take n (drop i xs) ≡ window xs i n
take-drop-window xs i n h =
    sym (append-nil (take n (drop i xs)))
    ∙ rw (
      window-drop xs i n,
      ← window-take (drop i xs) n,
      length-take,
      length-drop,
      none_missing xs i n h,
    )

-- A window of the left list of two, and of the right one.
pub window-left :
    (xs ys : List ℕ) (i n : ℕ) → i + n ≤ length xs → window (xs ++ ys) i n ≡ window xs i n
unfolding window
window-left xs ys i zero h = refl
window-left [] ys i (suc n) h = absurd (omega (arith, h))
window-left (x ∷ xs) ys zero (suc n) h =
    ap (λ t. x ∷ t)
      (window-cons x (xs ++ ys) 0 n
        ∙ window-left xs ys 0 n (omega (arith, h))
        ∙ sym (window-cons x xs 0 n))
window-left (x ∷ xs) ys (suc i) (suc n) h =
    window-cons x (xs ++ ys) i (suc n)
    ∙ window-left xs ys i (suc n) (omega (arith, h))
    ∙ sym (window-cons x xs i (suc n))

pub window-right : (xs ys : List ℕ) (i n : ℕ) → window (xs ++ ys) (length xs + i) n ≡ window ys i n
window-right [] ys i n = ap (λ j. window ys j n) (omega arith)
window-right (x ∷ xs) ys i n =
    ap (λ j. window (x ∷ (xs ++ ys)) j n) (omega arith)
    ∙ window-cons x (xs ++ ys) (length xs + i) n
    ∙ window-right xs ys i n

-- A window of the middle list of three.
pub window-middle :
    (pre xs post : List ℕ) (i n : ℕ)
    → i + n ≤ length xs
    → window (pre ++ (xs ++ post)) (length pre + i) n ≡ window xs i n
window-middle pre xs post i n h = window-right pre (xs ++ post) i n ∙ window-left xs post i n h

pub window-zeros : (m i n : ℕ) → i + n ≤ m → window (replicate m 0) i n ≡ replicate n 0
unfolding window
window-zeros m i zero h = refl
window-zeros zero i (suc n) h = absurd (omega (arith, h))
window-zeros (suc m) zero (suc n) h =
    ap (λ t. 0 ∷ t) (window-cons 0 (replicate m 0) 0 n ∙ window-zeros m 0 n (omega (arith, h)))
window-zeros (suc m) (suc i) (suc n) h =
    window-cons 0 (replicate m 0) i (suc n) ∙ window-zeros m i (suc n) (omega (arith, h))
