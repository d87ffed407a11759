-- ===== src/Hash/Tests.antt =====
-- source/hash/Hash.cpp: texts and hashes of two bytes.
use zatestil.Prelude.{
  ℕ, ◌≡◌, ◌*◌, refl, List, [], ◌∷◌, map, if◌then◌else◌, ◌==◌, length, ok, throw, arith,
}
use mathlib.Core.Option
use zatestil.Hash.{
  Hash, char_from_hex?, char_from_hex, or_throw, invalid_character, invalid_length, parse_from,
  parse, string,
}
use zatestil.Hash.Text.{IsValid}
use zatestil.Hash.Parsing.{decode, parse_lem}
use zatestil.Hash.RoundTrip.{to_lower, parse-string, string-parse}

-- "0aFf", and the bytes that it stands for.
abbrev text : List ℕ
text = 48 ∷ 97 ∷ 70 ∷ 102 ∷ []

abbrev hash : Hash
hash = record { bytes = 10 ∷ 255 ∷ [] }

hash-IsValid : IsValid 2 hash
hash-IsValid = record { sized = refl; in_range = (omega arith, (omega arith, tt)) }

parse_text : parse 2 text ≡ ok hash
unfolding parse parse_from char_from_hex char_from_hex?
parse_text = refl

parse_bad_digit : parse 1 (48 ∷ 103 ∷ []) ≡ throw "invalid hex character"
unfolding parse parse_from char_from_hex char_from_hex?
parse_bad_digit = refl

parse_short : parse 2 (48 ∷ 97 ∷ []) ≡ throw "invalid hash string length"
unfolding parse
parse_short = refl

parse-string_example : parse 2 (string 2 hash) ≡ ok hash
parse-string_example = parse-string 2 hash hash-IsValid

string-parse_example : IsValid 2 hash × (string 2 hash ≡ map to_lower text) × (length text ≡ 2 * 2)
string-parse_example = string-parse 2 text hash parse_text

parse_lem_example : parse 2 text ≡ (
    if length text == 2 * 2
    then or_throw (Option.map (λ bytes. record { bytes = bytes }) (decode text)) invalid_character
    else throw invalid_length)
parse_lem_example = parse_lem 2 text
