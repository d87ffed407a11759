-- ===== src/Config/Tests.antt =====
-- include/config: the numbers of the two configurations.
use zatestil.Prelude.{◌≡◌, refl, some, [], ◌∷◌, ok, throw}
use zatestil.Config.{milliseconds, negsuc, timeout_of, get, Configuration}
use zatestil.Config.Numbers.{codes, stoul, skip_spaces, digits_from, unsigned, signed}
use zatestil.Config.Reading.{number, Times, timeout_of_digits}

-- A minus sign is read.
negative : stoul (codes "-1x") ≡ ok 18446744073709551615
unfolding stoul skip_spaces signed unsigned digits_from
negative = refl

no_number : stoul (codes "port") ≡ throw "stoul"
unfolding stoul skip_spaces signed unsigned digits_from
no_number = refl

-- A configuration whose timeout is " 42;".
abbrev small : Configuration
small param = some " 42;"

timeout_of_digits_example : Times (number 0 (b'4' ∷ b'2' ∷ [])) (timeout_of small)
unfolding get
timeout_of_digits_example =
    timeout_of_digits small " 42;" (32 ∷ []) b'4' (b'2' ∷ []) (b';' ∷ []) refl refl (refl, tt)
      (refl, (refl, tt)) refl

-- `-1` is read as the largest number without a sign, and is one millisecond ago.
minus_one : timeout_of (λ _. some "-1") ≡ ok (negsuc 0)
unfolding timeout_of get milliseconds stoul skip_spaces signed unsigned digits_from
minus_one = refl
