-- ===== src/Websocket/Handles.antt =====
-- `std::map<size_t, Handle>`, as its pairs in the order of the ids. A `Handle` is some value of `H`.
use zatestil.Prelude.{
  ℕ, ◌<◌, ◌≡◌, refl, Bool, true, false, Option, none, some, List, [], ◌∷◌, arith, ltb, ◌==◌,
  if◌then◌else◌,
}

abbrev pub Handles : Type 0 → Type 0
Handles H = List (ℕ × H)

module _ {H : Type 0} where
  unfoldable pub find : ℕ → Handles H → Option H
  find k [] = none
  find k ((j, h) ∷ m) = if j == k then some h else find k m

  -- `insert`, which keeps what it has.
  unfoldable pub insert : ℕ → H → Handles H → Handles H
  insert k h [] = (k, h) ∷ []
  insert k h ((j, g) ∷ m) =
      let rest = insert k h m in
      if ltb k j then (k, h) ∷ (j, g) ∷ m else if j == k then (j, g) ∷ m else (j, g) ∷ rest

  -- `erase`, and whether it erased something.
  unfoldable pub erase : ℕ → Handles H → Handles H × Bool
  erase k [] = ([], false)
  erase k ((j, g) ∷ m) =
      let rest = erase k m in if j == k then (m, true) else ((j, g) ∷ rest.0, rest.1)

  abbrev pub Above : ℕ → Handles H → Type 0
  Above k [] = Unit {0}
  Above k ((j, h) ∷ m) = (k < j) × Above k m

  abbrev pub IsSorted : Handles H → Type 0
  IsSorted [] = Unit {0}
  IsSorted ((j, h) ∷ m) = Above j m × IsSorted m

  Above-find : (k l : ℕ) (m : Handles H) → Above l m → k < l → find k m ≡ none
  unfolding find
  Above-find k l [] a h = refl
  Above-find k l ((j, g) ∷ m) a h = ground (arith, Above-find k l m a.1)

  find_at-Above : (k : ℕ) (m : Handles H) → Above k m → find k m ≡ none
  unfolding find
  find_at-Above k [] a = refl
  find_at-Above k ((j, g) ∷ m) a = ground (arith, find_at-Above k m a.1)

  Above-insert : (l k : ℕ) (h : H) (m : Handles H) → Above l m → l < k → Above l (insert k h m)
  unfolding insert
  Above-insert l k h [] a s = (s, tt)
  Above-insert l k h ((j, g) ∷ m) a s = ground (arith, Above-insert l k h m a.1)

  Above-trans : (l k : ℕ) (m : Handles H) → l < k → Above k m → Above l m
  Above-trans l k [] s a = tt
  Above-trans l k ((j, g) ∷ m) s a = (omega (arith, a.0), Above-trans l k m s a.1)

  pub insert-IsSorted : (k : ℕ) (h : H) (m : Handles H) → IsSorted m → IsSorted (insert k h m)
  unfolding insert
  insert-IsSorted k h [] s = (tt, tt)
  insert-IsSorted k h ((j, g) ∷ m) s =
      ground (arith, insert-IsSorted k h m s.1, Above-insert j k h m s.0, Above-trans k j m)

  -- All ids are below a bound.
  abbrev pub Below : ℕ → Handles H → Type 0
  Below n [] = Unit {0}
  Below n ((j, h) ∷ m) = (j < n) × Below n m

  pub Below-insert : (n k : ℕ) (h : H) (m : Handles H) → Below n m → k < n → Below n (insert k h m)
  unfolding insert
  Below-insert n k h [] a s = (s, tt)
  Below-insert n k h ((j, g) ∷ m) a s = ground (arith, Below-insert n k h m a.1)

  pub Below-erase : (n k : ℕ) (m : Handles H) → Below n m → Below n (erase k m).0
  unfolding erase
  Below-erase n k [] a = tt
  Below-erase n k ((j, g) ∷ m) a = ground (arith, Below-erase n k m a.1)

  pub Below-trans : (n k : ℕ) (m : Handles H) → Below n m → n < k → Below k m
  Below-trans n k [] a s = tt
  Below-trans n k ((j, g) ∷ m) a s = (omega (arith, a.0), Below-trans n k m a.1 s)

  pub find-Below : (n : ℕ) (m : Handles H) → Below n m → find n m ≡ none
  unfolding find
  find-Below n [] a = refl
  find-Below n ((j, g) ∷ m) a = ground (arith, find-Below n m a.1)

  Above-erase : (l k : ℕ) (m : Handles H) → Above l m → Above l (erase k m).0
  unfolding erase
  Above-erase l k [] a = tt
  Above-erase l k ((j, g) ∷ m) a = ground (arith, Above-erase l k m a.1)

  pub erase-IsSorted : (k : ℕ) (m : Handles H) → IsSorted m → IsSorted (erase k m).0
  unfolding erase
  erase-IsSorted k [] s = tt
  erase-IsSorted k ((j, g) ∷ m) s = ground (arith, erase-IsSorted k m s.1, Above-erase j k m s.0)

  abbrev pub is_found : Option H → Bool
  is_found none = false
  is_found (some _) = true

  pub erase-found : (k : ℕ) (m : Handles H) → (erase k m).1 ≡ is_found (find k m)
  unfolding find erase
  erase-found k [] = refl
  erase-found k ((j, g) ∷ m) = ground (arith, erase-found k m)

  pub find-erase :
      (k l : ℕ) (m : Handles H)
      → IsSorted m
      → find l (erase k m).0 ≡ (if k == l then none else find l m)
  unfolding find erase
  find-erase k l [] s = ground arith
  find-erase k l ((j, g) ∷ m) s = ground (arith, find-erase k l m s.1, find_at-Above j m s.0)

  pub find-insert :
      (k l : ℕ) (h : H) (m : Handles H)
      → IsSorted m
      → find k m ≡ none
      → find l (insert k h m) ≡ (if k == l then some h else find l m)
  unfolding find insert
  find-insert k l h [] s e = refl
  find-insert k l h ((j, g) ∷ m) s e = ground (arith, find-insert k l h m s.1)
