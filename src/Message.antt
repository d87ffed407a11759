-- ===== src/Message.antt =====
-- include/message/Message.hpp: the messages and the functions that make them. The text of a payload
-- is what `serde::to_json` yields for it, so the overloads with a payload take its `Yas`.
pub mod Making
pub mod Equality
pub mod Requester
pub mod Tests
use Prim.Native.String.{String}
use zatestil.Prelude.{ℕ, ◌+◌, ◌%◌, ◌^◌, Bool, false, [], Bytes}
use zatestil.Serde.{Yas, to_json}

pub data Action : Type 0 where
  start get_account : Action

-- `enum class Type`
pub data MessageType : Type 0 where
  request response notify : MessageType

pub record Status : Type 0 where
  pub is_ok : Bool
  pub message : String

pub record Message : Type 0 where
  pub type_of : MessageType
  pub id : ℕ
  pub status : Status
  pub action : Action
  pub text : Bytes

-- `Message {}`
abbrev pub blank : Message
blank = record {
  type_of = request;
  id = 0;
  status = record { is_ok = false; message = "" };
  action = start;
  text = [];
}

-- `next_id`, on the static counter: the id that it returns is the new counter too.
unfoldable pub next_id : ℕ → ℕ
next_id counter = (counter + 1) % 2 ^ 64

-- The functions that draw an id take the counter and return the one after the call.
unfoldable pub make_request : Action → ℕ → Message × ℕ
unfolding next_id
make_request action counter =
    (record blank { id = next_id counter; action = action; type_of = request }, next_id counter)

unfoldable pub make_request_with : {P : Type 0} → Yas P → Action → P → ℕ → Message × ℕ
unfolding next_id to_json
make_request_with yas action payload counter = (
  record blank {
    id = next_id counter;
    action = action;
    type_of = request;
    text = to_json yas payload;
  },
  next_id counter,
)

unfoldable pub make_response : Message → Status → Message
make_response asked status = record blank {
  id = asked.id;
  type_of = response;
  action = asked.action;
  status = status;
}

unfoldable pub make_response_with : {P : Type 0} → Yas P → Message → Status → P → Message
unfolding to_json
make_response_with yas asked status payload = record blank {
  id = asked.id;
  type_of = response;
  action = asked.action;
  status = status;
  text = to_json yas payload;
}

unfoldable pub make_notify : Action → Status → ℕ → Message × ℕ
unfolding next_id
make_notify action status counter = (
  record blank { id = next_id counter; action = action; type_of = notify; status = status },
  next_id counter,
)

unfoldable pub make_notify_with : {P : Type 0} → Yas P → Action → Status → P → ℕ → Message × ℕ
unfolding next_id to_json
make_notify_with yas action status payload counter = (
  record blank {
    id = next_id counter;
    action = action;
    type_of = notify;
    status = status;
    text = to_json yas payload;
  },
  next_id counter,
)
