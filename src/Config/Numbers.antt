-- ===== src/Config/Numbers.antt =====
-- `std::stoul` on a text, as the configuration is read by it.
use Prim.Native.String.{String}
use Prim.Native.Char.{code}
use zatestil.Prelude.{
  ℕ, ◌+◌, ◌-◌, ◌*◌, ◌%◌, ◌^◌, Bool, true, false, ◌&&◌, ◌||◌, List, [], ◌∷◌, ltb, leb, ◌==◌,
  if◌then◌else◌, Attempt, ok, throw,
}

-- The code points of a text.
abbrev pub codes : String → List ℕ
codes String.[] = []
codes (String.◌∷◌ c s) = code c ∷ codes s

abbrev pub is_space : ℕ → Bool
is_space c = c == 32 || (leb 9 c && leb c 13)

abbrev pub is_digit : ℕ → Bool
is_digit c = leb b'0' c && leb c b'9'

unfoldable pub skip_spaces : List ℕ → List ℕ
skip_spaces [] = []
skip_spaces (c ∷ cs) = if is_space c then skip_spaces cs else c ∷ cs

-- The value of the digits that the text begins with, after those of value `value`.
unfoldable pub digits_from : ℕ → List ℕ → ℕ
digits_from value [] = value
digits_from value (c ∷ cs) =
    let more = digits_from (value * 10 + (c - b'0')) cs in if is_digit c then more else value

abbrev pub starts_with_digit : List ℕ → Bool
starts_with_digit [] = false
starts_with_digit (c ∷ cs) = is_digit c

-- An `unsigned long` has 64 bits; a minus sign negates in them.
unfoldable pub unsigned : Bool → List ℕ → Attempt ℕ
unfolding digits_from
unsigned negative cs =
    if starts_with_digit cs
    then (if ltb (digits_from 0 cs) (2 ^ 64)
        then ok (if negative then (2 ^ 64 - digits_from 0 cs) % 2 ^ 64 else digits_from 0 cs)
        else throw "stoul")
    else throw "stoul"

unfoldable pub signed : List ℕ → Attempt ℕ
unfolding unsigned
signed [] = throw "stoul"
signed (c ∷ cs) =
    if c == b'-'
    then unsigned true cs
    else if c == b'+'
    then unsigned false cs
    else unsigned false (c ∷ cs)

-- What is no number throws `std::invalid_argument`, what is too large `std::out_of_range`.
unfoldable pub stoul : List ℕ → Attempt ℕ
unfolding skip_spaces signed
stoul text = signed (skip_spaces text)
