-- ===== src/Hash.antt =====
-- source/hash/Hash.cpp: `Hash<size>`, its hexadecimal text and the parser of that text.
-- A byte is a number below 256, `std::array<uint8_t, size>` is a list of `size` bytes. A `char` is
-- its code from 0 to 255: what C++ reads as a negative `char` is above every digit here, and below
-- every digit there, so all the range tests fail in both.
pub mod Text
pub mod Parsing
pub mod RoundTrip
pub mod Hasher
pub mod Tests
use Prim.Native.String.{String}
use zatestil.Prelude.{
  ℕ, zero, suc, ◌+◌, ◌-◌, ◌*◌, ◌/◌, ◌%◌, ◌&&◌, Option, none, some, List, [], ◌∷◌, leb, ltb, ◌==◌,
  if◌then◌else◌, length, get_or, set, replicate, take, Attempt, ok, throw, ◌>>=◌,
}

-- `Hash<size>`, with `m_data`.
pub record Hash : Type 0 where
  pub bytes : List ℕ

-- The default constructor.
pub null : ℕ → Hash
null size = record { bytes = replicate size 0 }

-- `bool char_from_hex(const char c, uint8_t& value)`: `none` is the result `false`.
unfoldable pub char_from_hex? : ℕ → Option ℕ
char_from_hex? c =
    if leb b'0' c && leb c b'9'
    then some (c - b'0')
    else if leb b'a' c && leb c b'f'
    then some (c - b'a' + 10)
    else if leb b'A' c && leb c b'F'
    then some (c - b'A' + 10)
    else none

abbrev pub invalid_character : String
invalid_character = "invalid hex character"

abbrev pub invalid_length : String
invalid_length = "invalid hash string length"

abbrev pub or_throw {ℓ} : {A : Type ℓ} → Option A → String → Attempt A
or_throw none message = throw message
or_throw (some a) message = ok a

-- `uint8_t char_from_hex(char c)`
unfoldable pub char_from_hex : ℕ → Attempt ℕ
unfolding char_from_hex?
char_from_hex c = or_throw (char_from_hex? c) invalid_character

-- The loop of `parse` from round `i`, with `rounds` to go: it yields the bytes that it stores.
unfoldable pub parse_from : List ℕ → (i rounds : ℕ) → Attempt (List ℕ)
unfolding char_from_hex
parse_from text i zero = ok []
parse_from text i (suc rounds) = do
  hi ← char_from_hex (get_or text (2 * i) 0)
  lo ← char_from_hex (get_or text (2 * i + 1) 0)
  rest ← parse_from text (i + 1) rounds
  ok (((hi * 16 + lo) % 256) ∷ rest)

-- `Hash<size>::parse`
unfoldable pub parse : (size : ℕ) → List ℕ → Attempt Hash
unfolding parse_from
parse size text =
    if length text == size * 2
    then (do stored ← parse_from text 0 size; ok (record { bytes = stored }))
    else throw invalid_length

-- A digit of `%x`.
pub hex_digit : ℕ → ℕ
hex_digit d = if ltb d 10 then b'0' + d else b'a' + (d - 10)

-- `sprintf(&buf[at], "%02x", byte)`: two digits, and the byte 0 that ends the text.
pub sprintf_02x : List ℕ → (at byte : ℕ) → List ℕ
unfolding hex_digit
sprintf_02x buf at byte =
    set (set (set buf at (hex_digit (byte / 16))) (at + 1) (hex_digit (byte % 16))) (at + 2) 0

-- The loop of `string` from round `i`.
pub string_from : (i : ℕ) → List ℕ → List ℕ → List ℕ
unfolding sprintf_02x
string_from i [] buf = buf
string_from i (b ∷ bytes) buf = string_from (i + 1) bytes (sprintf_02x buf (2 * i) b)

-- `Hash<size>::string`. The buffer holds the place of the final 0 too, which `std::string` keeps
-- behind its `2 * size` characters.
pub string : (size : ℕ) → Hash → List ℕ
unfolding string_from
string size h = take (2 * size) (string_from 0 h.bytes (replicate (2 * size + 1) 0))
