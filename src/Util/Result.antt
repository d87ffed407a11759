-- ===== src/Util/Result.antt =====
-- include/util/Result.hpp and source/util/Result.cpp.
use Prim.Native.String.{String}
use zatestil.Prelude.{ℕ, ◌≡◌, refl, ◌↔◌, Bool, true, false, not, arith}

-- `Result::Code`
pub data Code : Type 0 where
  success error critical : Code

-- The number of an enumerator.
unfoldable pub to_uint8 : Code → ℕ
to_uint8 success = 0
to_uint8 error = 1
to_uint8 critical = 2

-- `==` on two enumerators.
abbrev pub code_eq : Code → Code → Bool
code_eq success success = true
code_eq error error = true
code_eq critical critical = true
code_eq _ _ = false

pub record Result : Type 0 where
  pub code : Code
  pub message : String

-- `Result {Result::Success}`
abbrev pub succeeded : Result
succeeded = record { code = success; message = "" }

unfoldable pub is_ok : Result → Bool
is_ok r = code_eq r.code success

-- `operator Code`
unfoldable pub to_code : Result → Code
to_code r = r.code

-- The four comparisons, by the order of their operands.
pub eq_code : Result → Code → Bool
eq_code r c = code_eq r.code c

pub code_eq_result : Code → Result → Bool
code_eq_result c r = code_eq r.code c

pub code_ne_result : Code → Result → Bool
code_ne_result c r = not (code_eq r.code c)

pub ne_code : Result → Code → Bool
ne_code r c = not (code_eq r.code c)

pub code_eq_iff : (a b : Code) → (code_eq a b ≡ true) ↔ (a ≡ b)
code_eq_iff a b = ground arith

-- The comparisons agree whichever side the code stands on, `!=` is the opposite of `==`, `==` holds
-- exactly when the conversion to a code gives that code, and `isOk` is the comparison with success.
pub comparisons_agree :
    (r : Result) (c : Code)
    → (code_eq_result c r ≡ eq_code r c)
      × (ne_code r c ≡ not (eq_code r c))
      × (code_ne_result c r ≡ not (code_eq_result c r))
      × ((eq_code r c ≡ true) ↔ (to_code r ≡ c))
      × (is_ok r ≡ eq_code r success)
unfolding eq_code code_eq_result code_ne_result ne_code to_code is_ok
comparisons_agree r c = (refl, refl, refl, code_eq_iff r.code c, refl)
