-- ===== src/Hash/Parsing.antt =====
-- source/hash/Hash.cpp: `Hash<size>::parse` against a description of its own.
use zatestil.Prelude.{
  ℕ, zero, suc, ◌+◌, ◌*◌, ◌%◌, ◌<◌, ◌≡◌, refl, inl, inr, Option, none, some, List, [], ◌∷◌, ◌++◌,
  append_assoc, arith, ◌==◌, if◌then◌else◌, length, ok, throw, ◌>>=◌, Bool-cases, length-append,
  get_or-append,
}
use mathlib.Core.Option
use zatestil.Hash.{
  char_from_hex?, char_from_hex, or_throw, invalid_character, invalid_length, parse_from, parse,
  hex_digit,
}

abbrev pub join : Option ℕ → Option ℕ → Option ℕ
join none _ = none
join (some h) none = none
join (some h) (some l) = some (h * 16 + l)

-- What two digits stand for.
abbrev pub pair_value : ℕ → ℕ → Option ℕ
pair_value hi lo = join (char_from_hex? hi) (char_from_hex? lo)

pub join-eq-some :
    (o p : Option ℕ) {v : ℕ}
    → join o p ≡ some v
    → (h l : ℕ) × (o ≡ some h) × (p ≡ some l) × (v ≡ h * 16 + l)
join-eq-some none p e = absurd (cc e)
join-eq-some (some h) none e = absurd (cc e)
join-eq-some (some h) (some l) e = (h, l, refl, refl, cc)

pub char_from_hex?-lt : (c v : ℕ) → char_from_hex? c ≡ some v → v < 16
unfolding char_from_hex?
char_from_hex?-lt c v e = ground arith

pub char_from_hex?-hex_digit : (d : ℕ) → d < 16 → char_from_hex? (hex_digit d) ≡ some d
unfolding char_from_hex? hex_digit
char_from_hex?-hex_digit d h = ground arith

abbrev pub cons? : Option ℕ → Option (List ℕ) → Option (List ℕ)
cons? none _ = none
cons? (some v) none = none
cons? (some v) (some vs) = some (v ∷ vs)

-- The bytes that a text stands for: `none` if a digit is bad or one is left over.
abbrev pub decode : List ℕ → Option (List ℕ)
decode [] = some []
decode (hi ∷ []) = none
decode (hi ∷ lo ∷ rest) = cons? (pair_value hi lo) (decode rest)

char_from_hex_lem : (c : ℕ) → char_from_hex c ≡ or_throw (char_from_hex? c) invalid_character
unfolding char_from_hex
char_from_hex_lem c = refl

-- One round of the loop, with what the other rounds yield.
parse_pair :
    (hi lo : ℕ) (rest : Option (List ℕ))
    → (char_from_hex hi >>= λ h. char_from_hex lo >>= λ l.
        or_throw rest invalid_character >>= λ vs. ok (((h * 16 + l) % 256) ∷ vs))
      ≡ or_throw (cons? (pair_value hi lo) rest) invalid_character
unfolding char_from_hex
parse_pair hi lo rest = ground (arith, char_from_hex?-lt hi, char_from_hex?-lt lo)

parse_from-append :
    (rounds i : ℕ) (pre rest : List ℕ)
    → length pre ≡ 2 * i
    → length rest ≡ 2 * rounds
    → parse_from (pre ++ rest) i rounds ≡ or_throw (decode rest) invalid_character
unfolding parse_from char_from_hex
parse_from-append zero i pre [] e h = refl
parse_from-append zero i pre (x ∷ rest) e h = absurd (omega arith)
parse_from-append (suc rounds) i pre [] e h = absurd (omega arith)
parse_from-append (suc rounds) i pre (x ∷ []) e h = absurd (omega arith)
parse_from-append (suc rounds) i pre (hi ∷ lo ∷ rest) e h =
    let shifted : parse_from (pre ++ hi ∷ lo ∷ rest) (i + 1) rounds
        ≡ or_throw (decode rest) invalid_character =
      rw append_assoc at (
        parse_from-append rounds (i + 1) (pre ++ hi ∷ lo ∷ []) rest
          (omega (arith, length-append pre (hi ∷ lo ∷ []))) (omega arith)) in
    rw
      (
        get_or-append pre (hi ∷ lo ∷ rest) 0 (2 * i) 0 (omega arith),
        get_or-append pre (hi ∷ lo ∷ rest) 1 (2 * i + 1) 0 (omega arith),
        shifted,
      )
      (parse_pair hi lo (decode rest))

-- `parse` throws for a wrong length, then for a bad digit, and otherwise yields the bytes that the
-- pairs of digits stand for.
pub parse_lem :
    (size : ℕ) (text : List ℕ)
    → parse size text ≡ (
        if length text == size * 2
        then or_throw
            (Option.map (λ bytes. record { bytes = bytes }) (decode text))
            invalid_character
        else throw invalid_length)
unfolding parse
parse_lem size text = elim (Bool-cases (length text == size * 2)) [
  | inl fits ↦ rw fits (rw (parse_from-append size 0 [] text refl (ground arith)) (ground arith))
  | inr other ↦ rw other
]
