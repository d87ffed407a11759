-- ===== src/Prelude/Lists.antt =====
-- Lists measured and indexed by native numbers, under the library's names.
use Prim.Native.Nat.{ℕ, zero, suc, ◌+◌}
use mathlib.Core.Path.{◌≡◌, refl, ap}
use mathlib.Core.List.{List, [], ◌∷◌, ◌++◌, map}
use native.Mathlib.Omega.{arith}

module _ {ℓ} {A : Type ℓ} where
  abbrev pub length : List A → ℕ
  length [] = 0
  length (x ∷ xs) = suc (length xs)

  abbrev pub get_or : List A → ℕ → A → A
  get_or [] i d = d
  get_or (x ∷ xs) zero d = x
  get_or (x ∷ xs) (suc i) d = get_or xs i d

  -- A write out of bounds changes nothing.
  abbrev pub set : List A → ℕ → A → List A
  set [] i v = []
  set (x ∷ xs) zero v = v ∷ xs
  set (x ∷ xs) (suc i) v = x ∷ set xs i v

  abbrev pub replicate : ℕ → A → List A
  replicate zero a = []
  replicate (suc n) a = a ∷ replicate n a

  abbrev pub take : ℕ → List A → List A
  take zero xs = []
  take (suc n) [] = []
  take (suc n) (x ∷ xs) = x ∷ take n xs

  abbrev pub All {κ} : (A → Type κ) → List A → Type κ
  All P [] = Unit
  All P (x ∷ xs) = P x × All P xs

  pub length-append : (xs ys : List A) → length (xs ++ ys) ≡ length xs + length ys
  length-append [] ys = omega arith
  length-append (x ∷ xs) ys = omega (arith, length-append xs ys)

  pub get_or-append :
      (xs ys : List A) (k i : ℕ) (d : A) → i ≡ length xs + k → get_or (xs ++ ys) i d ≡ get_or ys k d
  get_or-append [] ys k i d e = ground arith
  get_or-append (x ∷ xs) ys k zero d e = absurd (omega arith)
  get_or-append (x ∷ xs) ys k (suc i) d e = get_or-append xs ys k i d (omega arith)

  pub set-append :
      (xs ys : List A) (k i : ℕ) (v : A) → i ≡ length xs + k → set (xs ++ ys) i v ≡ xs ++ set ys k v
  set-append [] ys k i v e = ground arith
  set-append (x ∷ xs) ys k zero v e = absurd (omega arith)
  set-append (x ∷ xs) ys k (suc i) v e = ap (◌∷◌ x) (set-append xs ys k i v (omega arith))

  pub take-append : (xs ys : List A) (n : ℕ) → n ≡ length xs → take n (xs ++ ys) ≡ xs
  take-append [] ys zero e = refl
  take-append [] ys (suc n) e = absurd (omega arith)
  take-append (x ∷ xs) ys zero e = absurd (omega arith)
  take-append (x ∷ xs) ys (suc n) e = ap (◌∷◌ x) (take-append xs ys n (omega arith))

pub length-map {ℓ κ} :
    {A : Type ℓ} {B : Type κ} (f : A → B) (xs : List A) → length (map f xs) ≡ length xs
length-map f [] = refl
length-map f (x ∷ xs) = ap suc (length-map f xs)

-- The element in the middle, and the others.
module _ {ℓ} {A : Type ℓ} where
  pub All-middle {κ} :
      (P : A → Type κ) (pre : List A) (x : A) (post : List A)
      → All P (pre ++ x ∷ post)
      → P x × All P (pre ++ post)
  All-middle P [] x post a = a
  All-middle P (y ∷ pre) x post a = let (h, t) = All-middle P pre x post a.1 in (h, (a.0, t))

  pub All-append {κ} : (P : A → Type κ) (xs ys : List A) → All P xs → All P ys → All P (xs ++ ys)
  All-append P [] ys a b = b
  All-append P (x ∷ xs) ys a b = (a.0, All-append P xs ys a.1 b)

  pub All-insert {κ} :
      (P : A → Type κ) (pre : List A) (x : A) (post : List A)
      → P x
      → All P (pre ++ post)
      → All P (pre ++ x ∷ post)
  All-insert P [] x post h a = (h, a)
  All-insert P (y ∷ pre) x post h a = (a.0, All-insert P pre x post h a.1)

  pub All-map {κ ι} :
      (P : A → Type κ) (Q : A → Type ι)
      → ((x : A) → P x → Q x)
      → (xs : List A) → All P xs
      → All Q xs
  All-map P Q f [] a = tt
  All-map P Q f (x ∷ xs) a = (f x a.0, All-map P Q f xs a.1)

  -- The sum of a weight.
  abbrev pub total : (A → ℕ) → List A → ℕ
  total w [] = 0
  total w (x ∷ xs) = w x + total w xs

  pub total-middle :
      (w : A → ℕ) (pre : List A) (x : A) (post : List A)
      → total w (pre ++ x ∷ post) ≡ w x + total w (pre ++ post)
  total-middle w [] x post = refl
  total-middle w (y ∷ pre) x post = omega (arith, total-middle w pre x post)
