-- ===== src/Hash/Text.antt =====
-- source/hash/Hash.cpp: `Hash<size>::string` against a description of its own.
use zatestil.Prelude.{
  ℕ, suc, ◌+◌, ◌*◌, ◌/◌, ◌%◌, ◌<◌, ◌≡◌, refl, sym, List, [], ◌∷◌, ◌++◌, append_assoc, arith, length,
  replicate, All, length-append, set-append, take-append,
}
use zatestil.Hash.{Hash, hex_digit, sprintf_02x, string_from, string}

-- The text of a list of bytes, high digit first.
abbrev pub hex_of : List ℕ → List ℕ
hex_of [] = []
hex_of (b ∷ bytes) = hex_digit (b / 16) ∷ hex_digit (b % 16) ∷ hex_of bytes

abbrev pub IsByte : ℕ → Type 0
IsByte b = b < 256

-- A hash of `size` bytes.
pub record IsValid (size : ℕ) (h : Hash) : Type 0 where
  pub sized : length h.bytes ≡ size
  pub in_range : All IsByte h.bytes

pub length-hex_of : (bytes : List ℕ) → length (hex_of bytes) ≡ 2 * length bytes
length-hex_of [] = refl
length-hex_of (b ∷ bytes) = omega (arith, length-hex_of bytes)

replicate-even : (n : ℕ) → replicate {A = ℕ} (2 * suc n + 1) 0 ≡ 0 ∷ 0 ∷ replicate (2 * n + 1) 0
replicate-even n = let e : 2 * suc n + 1 ≡ suc (suc (2 * n + 1)) = omega arith in rw e

replicate-odd : (n : ℕ) → replicate {A = ℕ} (2 * n + 1) 0 ≡ 0 ∷ replicate (2 * n) 0
replicate-odd n = let e : 2 * n + 1 ≡ suc (2 * n) = omega arith in rw e

sprintf_02x-append :
    (pre tail : List ℕ) (at b : ℕ)
    → at ≡ length pre
    → sprintf_02x (pre ++ 0 ∷ 0 ∷ 0 ∷ tail) at b
      ≡ pre ++ hex_digit (b / 16) ∷ hex_digit (b % 16) ∷ 0 ∷ tail
unfolding sprintf_02x
sprintf_02x-append pre tail at b e = rw (
  set-append pre (0 ∷ 0 ∷ 0 ∷ tail) 0 at hi (omega arith),
  set-append pre (hi ∷ 0 ∷ 0 ∷ tail) 1 (at + 1) lo (omega arith),
  set-append pre (hi ∷ lo ∷ 0 ∷ tail) 2 (at + 2) 0 (omega arith),
)
  where
    hi : ℕ
    hi = hex_digit (b / 16)

    lo : ℕ
    lo = hex_digit (b % 16)

string_from-append :
    (i : ℕ) (bytes pre : List ℕ)
    → length pre ≡ 2 * i
    → string_from i bytes (pre ++ replicate (2 * length bytes + 1) 0)
      ≡ pre ++ (hex_of bytes ++ 0 ∷ [])
unfolding string_from
string_from-append i [] pre e = refl
string_from-append i (b ∷ bytes) pre e =
    rw (replicate-even (length bytes), replicate-odd (length bytes))
      (rw (sprintf_02x-append pre (replicate (2 * length bytes) 0) (2 * i) b (sym e)) (
        simp (append_assoc, replicate-odd (length bytes)) at
          (string_from-append (i + 1) bytes (pre ++ hi ∷ lo ∷ [])
            (omega (arith, length-append pre (hi ∷ lo ∷ []))))))
  where
    hi : ℕ
    hi = hex_digit (b / 16)

    lo : ℕ
    lo = hex_digit (b % 16)

-- The buffer writes of `string` stay in bounds and leave the digits of every byte in order.
pub string-eq-hex_of :
    (size : ℕ) (h : Hash) → length h.bytes ≡ size → string size h ≡ hex_of h.bytes
unfolding string
string-eq-hex_of size h e = rw (← e) (
    rw (string_from-append 0 h.bytes [] refl) (
      take-append (hex_of h.bytes) (0 ∷ []) (2 * length h.bytes)
        (omega (arith, length-hex_of h.bytes))))
