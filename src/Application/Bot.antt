-- ===== src/Application/Bot.antt =====
-- application/bot/BotApplication.cpp: the bot. Of TgBot the model has how each call ends. The coroutine `onStart`
-- is left out.
pub mod Polling
pub mod Running
pub mod Tests
use Prim.Native.String.{String}
use zatestil.Prelude.{
  ℕ, ◌+◌, ◌%◌, ◌^◌, Bool, true, false, Option, none, some, List, [], ◌∷◌, ◌++◌, Attempt, ok, throw,
  ◌>>=◌, if◌then◌else◌,
}
use zatestil.Util.Result.{Result, is_ok}
use zatestil.Serde.{Yas}
use zatestil.Config.{Configuration, get, address, port_of}
use zatestil.Message.{Message}
use zatestil.Websocket.Session as Wire
use zatestil.Websocket.Session.{open_session}
use zatestil.Client.{Handler, Client, construct}

-- How a call of TgBot ends, and what `m_isRunning` is after it.
pub data Ending : Type 0 where
  returns : Ending
  throws : String → String → Ending
  throws_unknown : String → Ending

pub record Poll : Type 0 where
  pub ending : Ending
  pub running : Bool

pub data LogLine : Type 0 where
  poll_error : String → String → LogLine
  unknown_error : String → LogLine
  certificate_error open_error : String → LogLine

abbrev pub caught : Ending → List LogLine → List LogLine
caught returns lines = lines
caught (throws what trace) lines = lines ++ poll_error what trace ∷ []
caught (throws_unknown trace) lines = lines ++ unknown_error trace ∷ []

-- The loop of the task that polls, inside its block of `try`: the log at its end and the calls that
-- are left. `none`: the calls run out first.
unfoldable pub poll_from : Bool → List Poll → List LogLine → Option (List LogLine × List Poll)
poll_from false polls lines = some (lines, polls)
poll_from true [] lines = none
poll_from true (poll ∷ polls) lines =
    let rest = poll_from poll.running polls lines in
    elim poll.ending [
      | returns ↦ rest
      | throws what trace ↦ some (lines ++ poll_error what trace ∷ [], polls)
      | throws_unknown trace ↦ some (lines ++ unknown_error trace ∷ [], polls)
    ]

-- The task: `getMe` comes first.
unfoldable pub poll_task : Poll → List Poll → List LogLine → Option (List LogLine × List Poll)
unfolding poll_from
poll_task me polls lines = elim me.ending [
  | returns ↦ poll_from me.running polls lines
  | throws what trace ↦ some (lines ++ poll_error what trace ∷ [], polls)
  | throws_unknown trace ↦ some (lines ++ unknown_error trace ∷ [], polls)
]

-- The handlers that `run_impl` registers, its task, `m_session`, and the log.
pub record Bot : Type 0 where
  pub on_start : Bool
  pub on_any_message : Bool
  pub polls : ℕ
  pub session : Option (Wire.System Handler)
  pub lines : List LogLine

abbrev pub blank : Bot
blank = record { on_start = false; on_any_message = false; polls = 0; session = none; lines = [] }

-- The constructor, which hands `m_session` to its requester, as it is then.
unfoldable pub construct_bot : (yas : Yas Message) → Configuration → Option (Bot × Client yas)
unfolding construct
construct_bot yas config = elim (construct yas config blank.session) [
  | none ↦ none
  | some requester ↦ some (blank, requester)
]

abbrev text_of : Option String → Attempt String
text_of none = throw "no getter"
text_of (some text) = ok text

-- The endpoint of the session. `from_string` of boost::asio is a parameter.
unfoldable pub endpoint_of : (String → Attempt String) → Configuration → Attempt (String × ℕ)
unfolding get port_of
endpoint_of from_string config = do
  text ← text_of (get config address)
  host ← from_string text
  number ← port_of config
  ok (host, number)

abbrev pub is_opened : Result × Wire.Session Handler → Bot → Bot
is_opened (result, session) b = record b {
  session = some (record (Wire.init {H = Handler}) { session = session; called = true });
  lines = if is_ok result then b.lines else b.lines ++ open_error result.message ∷ [];
}

-- The rest of `run_impl`, after the certificate was loaded.
abbrev pub connected :
    Attempt (String × ℕ) → (connect ssl websocket : Option String) → Bot → Attempt (Unit {0}) × Bot
connected (throw what) connect ssl websocket b = (throw what, b)
connected (ok endpoint) connect ssl websocket b =
    (ok tt, is_opened (open_session connect ssl websocket (Wire.init {H = Handler}).session) b)

-- `run_impl`, by how the certificate was loaded and how the parts of `open` end.
unfoldable pub run_impl :
    (String → Attempt String)
    → Configuration
    → (loaded connect ssl websocket : Option String) → Bot
    → Attempt (Unit {0}) × Bot
unfolding endpoint_of open_session is_ok
run_impl from_string config loaded connect ssl websocket b =
    let b = record b { on_start = true; on_any_message = true; polls = b.polls + 1 } in
    elim loaded [
      | some e ↦ (ok tt, record b { lines = b.lines ++ certificate_error e ∷ [] })
      | none ↦ connected (endpoint_of from_string config) connect ssl websocket b
    ]
