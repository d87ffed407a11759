-- ===== src/Database/Id.antt =====
-- include/database/Id.hpp.
use Prim.Native.String.{String}
use text.Mathlib.Text.{◌==◌}
use zatestil.Prelude.{◌≡◌, refl, sym, ap, ◌∙◌, if◌then◌else◌}

-- `enum class Id`, with its enumerators `_0` to `_10`.
pub data DatabaseId : Type 0 where
  id_0 id_1 id_2 id_3 id_4 id_5 id_6 id_7 id_8 id_9 id_10 : DatabaseId

-- The final `return "0"` is for numbers that are no enumerator.
abbrev pub to_string : DatabaseId → String
to_string id_0 = "0"
to_string id_1 = "1"
to_string id_2 = "2"
to_string id_3 = "3"
to_string id_4 = "4"
to_string id_5 = "5"
to_string id_6 = "6"
to_string id_7 = "7"
to_string id_8 = "8"
to_string id_9 = "9"
to_string id_10 = "10"

of_string : String → DatabaseId
of_string s =
    if s == "0"
    then id_0
    else if s == "1"
    then id_1
    else if s == "2"
    then id_2
    else if s == "3"
    then id_3
    else if s == "4"
    then id_4
    else if s == "5"
    then id_5
    else if s == "6"
    then id_6
    else if s == "7"
    then id_7
    else if s == "8"
    then id_8
    else if s == "9"
    then id_9
    else id_10

of_string-to_string : (i : DatabaseId) → of_string (to_string i) ≡ i
unfolding of_string
of_string-to_string id_0 = refl
of_string-to_string id_1 = refl
of_string-to_string id_2 = refl
of_string-to_string id_3 = refl
of_string-to_string id_4 = refl
of_string-to_string id_5 = refl
of_string-to_string id_6 = refl
of_string-to_string id_7 = refl
of_string-to_string id_8 = refl
of_string-to_string id_9 = refl
of_string-to_string id_10 = refl

-- Different databases and tables have different texts in the messages of the library.
pub to_string-injective : (i j : DatabaseId) → to_string i ≡ to_string j → i ≡ j
to_string-injective i j e = sym (of_string-to_string i) ∙ ap of_string e ∙ of_string-to_string j
