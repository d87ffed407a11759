-- ===== src/Hash/RoundTrip.antt =====
-- source/hash/Hash.cpp: `parse` and `string` against one another.
use zatestil.Prelude.{
  ℕ, ◌+◌, ◌*◌, ◌/◌, ◌%◌, ◌<◌, ◌≡◌, refl, ◌∙◌, inl, inr, ◌&&◌, Option, none, some, List, [], ◌∷◌,
  map, arith, leb, ◌==◌, if◌then◌else◌, length, All, ok, Option-cases, Bool-cases,
}
use zatestil.Hash.{Hash, char_from_hex?, parse, hex_digit, string}
use zatestil.Hash.Text.{hex_of, IsByte, IsValid, string-eq-hex_of, length-hex_of}
use zatestil.Hash.Parsing.{
  pair_value, join-eq-some, char_from_hex?-lt, char_from_hex?-hex_digit, cons?, decode, parse_lem,
}

decode-hex_of : (bytes : List ℕ) → All IsByte bytes → decode (hex_of bytes) ≡ some bytes
decode-hex_of [] v = refl
decode-hex_of (b ∷ bytes) v = ground (
  arith,
  char_from_hex?-hex_digit (b / 16),
  char_from_hex?-hex_digit (b % 16),
  decode-hex_of bytes v.1,
)

-- A valid hash is read back from its own text: `parse(h.string()) == h`.
pub parse-string : (size : ℕ) (h : Hash) → IsValid size h → parse size (string size h) ≡ ok h
parse-string size h v =
    rw
      (
        string-eq-hex_of size h v.sized,
        parse_lem size (hex_of h.bytes),
        decode-hex_of h.bytes v.in_range,
      )
      (ground (arith, length-hex_of h.bytes, v.sized))

-- `%x` writes the small letters: what `tolower` makes of a character.
abbrev pub to_lower : ℕ → ℕ
to_lower c = if leb b'A' c && leb c b'Z' then c + 32 else c

hex_digit-char_from_hex? : (c v : ℕ) → char_from_hex? c ≡ some v → hex_digit v ≡ to_lower c
unfolding char_from_hex? hex_digit
hex_digit-char_from_hex? c v e = ground arith

some_digits : (h l : ℕ) → h < 16 → l < 16 → ((h * 16 + l) / 16 ≡ h) × ((h * 16 + l) % 16 ≡ l)
some_digits h l p q = omega arith

-- A pair of digits that is read stands for a byte, whose own digits are those two in small letters.
pair_value-eq-some :
    (hi lo v : ℕ)
    → pair_value hi lo ≡ some v
    → (hex_digit (v / 16) ≡ to_lower hi) × (hex_digit (v % 16) ≡ to_lower lo) × (v < 256)
pair_value-eq-some hi lo v e =
    let (h, l, p, q, eq) = join-eq-some (char_from_hex? hi) (char_from_hex? lo) e in
    let hb = char_from_hex?-lt hi h p in
    let lb = char_from_hex?-lt lo l q in
    rw (eq, (some_digits h l hb lb).0, (some_digits h l hb lb).1)
      (hex_digit-char_from_hex? hi h p, hex_digit-char_from_hex? lo l q, omega arith)

cons?-eq-some :
    (o : Option ℕ) (os : Option (List ℕ)) {bytes : List ℕ}
    → cons? o os ≡ some bytes
    → (v : ℕ) × (vs : List ℕ) × (o ≡ some v) × (os ≡ some vs) × (bytes ≡ v ∷ vs)
cons?-eq-some none os e = absurd (cc e)
cons?-eq-some (some v) none e = absurd (cc e)
cons?-eq-some (some v) (some vs) e = (v, vs, refl, refl, cc)

hex_of-decode :
    (text bytes : List ℕ)
    → decode text ≡ some bytes
    → (hex_of bytes ≡ map to_lower text) × All IsByte bytes × (length text ≡ 2 * length bytes)
hex_of-decode [] [] e = (refl, tt, refl)
hex_of-decode [] (b ∷ bytes) e = absurd (cc e)
hex_of-decode (c ∷ []) bytes e = absurd (cc e)
hex_of-decode (hi ∷ lo ∷ rest) bytes e =
    let (v, vs, p, q, r) = cons?-eq-some (pair_value hi lo) (decode rest) e in
    let (high, low, small) = pair_value-eq-some hi lo v p in
    let (digits, bounded, sized) = hex_of-decode rest vs q in
    rw (r, high, low, digits, sized) (refl, (small, bounded), omega arith)

-- What `parse` accepts: a text of `2 * size` hexadecimal digits. The hash is valid then, and its
-- text is the given one with capital letters made small.
pub string-parse :
    (size : ℕ) (text : List ℕ) (h : Hash)
    → parse size text ≡ ok h
    → IsValid size h × (string size h ≡ map to_lower text) × (length text ≡ 2 * size)
string-parse size text h e = elim (Bool-cases (length text == size * 2)) [
  | inr other ↦ absurd (ground (arith, parse_lem size text))
  | inl fits ↦ elim (Option-cases (decode text)) [
    | inl bad ↦ absurd (ground (arith, parse_lem size text))
    | inr (bytes, p) ↦
        let eq : record { bytes = bytes } ≡ h = ground (arith, parse_lem size text) in
        let (digits, bounded, sized) = hex_of-decode text bytes p in
        rw (← eq) (
          record { sized = ground arith; in_range = bounded },
          string-eq-hex_of size (record { bytes = bytes }) (ground arith) ∙ digits,
          ground arith,
        )
  ]
]
