-- ===== src/Message/Making.antt =====
-- include/message/Message.hpp: what the functions that make messages promise.
use zatestil.Prelude.{ℕ, suc, zero, ◌+◌, ◌<◌, ◌%◌, ◌^◌, ◌≡◌, ◌≢◌, refl, arith, ok}
use zatestil.Serde.{Yas, IsFaithful, from_json, to_json}
use zatestil.Message.{
  Action, Status, request, response, next_id, make_request_with, make_response_with,
}

-- The counter after a number of calls of `next_id`.
abbrev pub drawn : ℕ → ℕ → ℕ
drawn zero counter = counter
drawn (suc n) counter = next_id (drawn n counter)

drawn_lem : (n counter : ℕ) → counter < 2 ^ 64 → drawn n counter ≡ (counter + n) % 2 ^ 64
unfolding next_id
drawn_lem zero counter h = omega arith
drawn_lem (suc n) counter h = omega (arith, drawn_lem n counter h)

-- Ids do not repeat until the 64-bit counter comes round: two calls of `next_id` with fewer than
-- `2 ^ 64` calls between them return different ids.
pub next_id-distinct :
    (counter n d : ℕ)
    → counter < 2 ^ 64
    → 0 < d
    → d < 2 ^ 64
    → drawn (n + d) counter ≢ drawn n counter
next_id-distinct counter n d h pos small e =
    omega (arith, drawn_lem (n + d) counter h, drawn_lem n counter h)

-- A request with a payload and the response to it. The response carries the id and the action of the
-- request and the given status, the two are told apart by their types, and, if yas reads back the
-- JSON that it writes, each payload is read back from its message.
pub make_response-make_request :
    {P Q : Type 0} (yas_p : Yas P) (yas_q : Yas Q)
    → IsFaithful yas_p
    → IsFaithful yas_q
    → (action : Action) (p : P) (q : Q) (status : Status) (counter : ℕ)
    → let asked = (make_request_with yas_p action p counter).0 in
      let answer = make_response_with yas_q asked status q in
      (answer.id ≡ next_id counter)
      × (answer.action ≡ action)
      × (answer.status ≡ status)
      × (asked.type_of ≡ request)
      × (answer.type_of ≡ response)
      × (from_json yas_p asked.text ≡ ok p)
      × (from_json yas_q answer.text ≡ ok q)
unfolding make_request_with make_response_with from_json to_json
make_response-make_request yas_p yas_q good_p good_q action p q status counter = (
  refl,
  refl,
  refl,
  refl,
  refl,
  good_p.json_back yas_p.initial p,
  good_q.json_back yas_q.initial q,
)
