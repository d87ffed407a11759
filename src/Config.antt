-- ===== src/Config.antt =====
-- include/config: the parameters and the two configurations. The texts of the certificate, the keys and
-- the token are arguments: nothing here depends on them.
pub mod Numbers
pub mod Reading
pub mod Tests
use Prim.Native.String.{String}
use zatestil.Prelude.{
  ℕ, ◌%◌, ◌^◌, ◌-◌, ltb, if◌then◌else◌, Option, none, some, Attempt, ok, throw, ◌>>=◌,
}
use zatestil.Config.Numbers.{codes, stoul}

pub data Param : Type 0 where
  bot_token name endpoint address port ssl_certificate ssl_dh_params ssl_private_key ssl_password
        data_dir request_timeout :
      Param

-- A configuration by its parameters; `none` is one that does not compile, for want of a getter.
abbrev pub Configuration : Type 0
Configuration = Param → Option String

-- The getters of `BotConfiguration`.
unfoldable pub bot_configuration : (certificate token : String) → Configuration
bot_configuration certificate token address = some "0.0.0.0"
bot_configuration certificate token port = some "3300"
bot_configuration certificate token name = some "ztsl-bot"
bot_configuration certificate token ssl_certificate = some certificate
bot_configuration certificate token request_timeout = some "10000"
bot_configuration certificate token bot_token = some token
bot_configuration certificate token _ = none

-- The getters of `ServiceConfiguration`.
unfoldable pub service_configuration : (certificate private_key dh_params : String) → Configuration
service_configuration certificate private_key dh_params name = some "ztsl-service"
service_configuration certificate private_key dh_params data_dir = some "./storage"
service_configuration certificate private_key dh_params address = some "0.0.0.0"
service_configuration certificate private_key dh_params port = some "3300"
service_configuration certificate private_key dh_params ssl_password = some "ztstl"
service_configuration certificate private_key dh_params ssl_certificate = some certificate
service_configuration certificate private_key dh_params ssl_private_key = some private_key
service_configuration certificate private_key dh_params ssl_dh_params = some dh_params
service_configuration certificate private_key dh_params _ = none

-- `get`, which asks the getter of the parameter.
unfoldable pub get : Configuration → Param → Option String
get config param = config param

-- `negsuc n` is -(n + 1).
pub data ℤ : Type 0 where
  pos negsuc : ℕ → ℤ

abbrev pub number_of : Option String → Attempt ℕ
number_of none = throw "no getter"
number_of (some text) = stoul (codes text)

-- `std::chrono::milliseconds` of an unsigned long: its count is signed, of 64 bits, and what is `2 ^ 63` or more
-- wraps round to a negative one.
unfoldable pub milliseconds : ℕ → ℤ
milliseconds n = if ltb n (2 ^ 63) then pos n else negsuc (2 ^ 64 - 1 - n)

-- `std::chrono::milliseconds(std::stoul(config->get<RequestTimeout>()))`
unfoldable pub timeout_of : Configuration → Attempt ℤ
unfolding get stoul milliseconds
timeout_of config = do n ← number_of (get config request_timeout); ok (milliseconds n)

-- `std::stoul(config->get<Port>())`, as the constructor of an endpoint takes it, an `unsigned short`.
unfoldable pub port_of : Configuration → Attempt ℕ
unfolding get stoul
port_of config = do number ← number_of (get config port); ok (number % 2 ^ 16)
