-- ===== src/Config/Reading.antt =====
-- include/config: which numbers are read from a configuration.
use zatestil.Prelude.{
  ℕ, ◌+◌, ◌-◌, ◌*◌, ◌<◌, ◌^◌, ◌≡◌, refl, ap, ◌∙◌, some, true, false, List, [], ◌∷◌, ◌++◌, arith,
  ltb, if◌then◌else◌, ok, throw, All, Attempt, ◌>>=◌, ◌≤◌, Bool-cases, inl, inr,
}
use Prim.Native.String.{String}
use zatestil.Config.{
  ℤ, pos, negsuc, milliseconds, Configuration, get, request_timeout, address, timeout_of, port_of,
  number_of, bot_configuration, service_configuration,
}
use zatestil.Config.Numbers.{
  codes, is_space, is_digit, skip_spaces, digits_from, starts_with_digit, unsigned, signed, stoul,
}

-- The number that digits stand for, the last one weighing 1.
abbrev pub number : ℕ → List ℕ → ℕ
number value [] = value
number value (c ∷ cs) = number (value * 10 + (c - b'0')) cs

skip_spaces-append :
    (spaces rest : List ℕ)
    → All (λ c. is_space c ≡ true) spaces
    → skip_spaces (spaces ++ rest) ≡ skip_spaces rest
unfolding skip_spaces
skip_spaces-append [] rest a = refl
skip_spaces-append (c ∷ cs) rest a = ground (arith, skip_spaces-append cs rest a.1)

digits_from-append :
    (value : ℕ) (digits rest : List ℕ)
    → All (λ c. is_digit c ≡ true) digits
    → starts_with_digit rest ≡ false
    → digits_from value (digits ++ rest) ≡ number value digits
unfolding digits_from
digits_from-append value [] [] a e = refl
digits_from-append value [] (c ∷ rest) a e = ground arith
digits_from-append value (d ∷ digits) rest a e =
    ground (arith, digits_from-append (value * 10 + (d - b'0')) digits rest a.1)

skip_spaces-digit : (d : ℕ) (cs : List ℕ) → is_digit d ≡ true → skip_spaces (d ∷ cs) ≡ d ∷ cs
unfolding skip_spaces
skip_spaces-digit d cs h = ground arith

signed-digit : (d : ℕ) (cs : List ℕ) → is_digit d ≡ true → signed (d ∷ cs) ≡ unsigned false (d ∷ cs)
unfolding signed
signed-digit d cs h = ground arith

unsigned-digit :
    (d n : ℕ) (cs : List ℕ)
    → is_digit d ≡ true
    → digits_from 0 (d ∷ cs) ≡ n
    → unsigned false (d ∷ cs) ≡ (if ltb n (2 ^ 64) then ok n else throw "stoul")
unfolding unsigned
unsigned-digit d n cs h e = rw (e, unsigned) (rw h refl)

stoul_digits :
    (spaces : List ℕ) (d : ℕ) (digits rest : List ℕ)
    → All (λ c. is_space c ≡ true) spaces
    → All (λ c. is_digit c ≡ true) (d ∷ digits)
    → starts_with_digit rest ≡ false
    → let n = number 0 (d ∷ digits) in
      stoul (spaces ++ (d ∷ digits ++ rest)) ≡ (if ltb n (2 ^ 64) then ok n else throw "stoul")
unfolding stoul
stoul_digits spaces d digits rest s a e =
    ap signed
      (skip_spaces-append spaces (d ∷ digits ++ rest) s ∙ skip_spaces-digit d (digits ++ rest) a.0)
    ∙ signed-digit d (digits ++ rest) a.0
    ∙ unsigned-digit d (number 0 (d ∷ digits)) (digits ++ rest) a.0
        (digits_from-append 0 (d ∷ digits) rest a e)

-- A count of milliseconds that stands for `n`, modulo `2 ^ 64`, among the numbers of 64 bits with a sign.
pub Represents : ℕ → ℤ → Type 0
Represents n (pos k) = (k ≡ n) × (n < 2 ^ 63)
Represents n (negsuc k) = (n + k + 1 ≡ 2 ^ 64) × (k < 2 ^ 63)

milliseconds-Represents : (n : ℕ) → n < 2 ^ 64 → Represents n (milliseconds n)
unfolding milliseconds Represents
milliseconds-Represents n small = elim (Bool-cases (ltb n (2 ^ 63))) [
  | inl t ↦ rw t (refl, ground (arith, t))
  | inr f ↦
      let large : 2 ^ 63 ≤ n = ground (arith, f) in
      rw f (omega (arith, large, small), omega (arith, large, small))
]

-- What the digits of `n` make of a timeout.
pub Times : ℕ → Attempt ℤ → Type 0
Times n read =
    (n < 2 ^ 64 → (count : ℤ) × (read ≡ ok count) × Represents n count)
    × (2 ^ 64 ≤ n → read ≡ throw "stoul")

-- The timeout of a configuration comes from the number that its digits stand for, after spaces and before what is
-- no digit. If that is less than `2 ^ 63` the timeout is the number, from there on it is the negative one that
-- is less by `2 ^ 64`, and if it is `2 ^ 64` or more, an exception is thrown.
pub timeout_of_digits :
    (config : Configuration) (text : String) (spaces : List ℕ) (d : ℕ) (digits rest : List ℕ)
    → get config request_timeout ≡ some text
    → codes text ≡ spaces ++ (d ∷ digits ++ rest)
    → All (λ c. is_space c ≡ true) spaces
    → All (λ c. is_digit c ≡ true) (d ∷ digits)
    → starts_with_digit rest ≡ false
    → Times (number 0 (d ∷ digits)) (timeout_of config)
unfolding timeout_of Times
timeout_of_digits config text spaces d digits rest there e s a end =
    let n = number 0 (d ∷ digits) in
    let read : number_of (get config request_timeout)
        ≡ (if ltb n (2 ^ 64) then ok n else throw "stoul") =
      ap number_of there ∙ ap stoul e ∙ stoul_digits spaces d digits rest s a end in
    let timed : timeout_of config
        ≡ (do k ← (if ltb n (2 ^ 64) then ok n else throw "stoul"); ok (milliseconds k)) =
      λ i. (do k ← read i; ok (milliseconds k)) in
    (
      λ small.
          let yes : ltb n (2 ^ 64) ≡ true = ground (arith, small) in
          (milliseconds n, timed ∙ rw yes refl, milliseconds-Represents n small),
      λ large. let no : ltb n (2 ^ 64) ≡ false = ground (arith, large) in timed ∙ rw no refl,
    )

-- Whatever its keys and its token are, the bot asks for the address and the port on which the service
-- listens. The port is a number of 16 bits, and the timeout of requests is ten seconds.
pub endpoints_agree :
    (certificate token server_certificate private_key dh_params : String)
    → let bot = bot_configuration certificate token in
      let service = service_configuration server_certificate private_key dh_params in
      (get bot address ≡ get service address)
      × (n : ℕ) × (port_of bot ≡ ok n)
      × (port_of service ≡ ok n)
      × (n < 2 ^ 16)
      × (timeout_of bot ≡ ok (pos 10000))
unfolding get port_of timeout_of milliseconds bot_configuration service_configuration stoul
    skip_spaces signed unsigned digits_from
endpoints_agree certificate token server_certificate private_key dh_params =
    (refl, 3300, refl, refl, omega arith, refl)
