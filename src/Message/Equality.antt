-- ===== src/Message/Equality.antt =====
-- include/message/Message.hpp: the comparisons that `serializable_as` defines.
use text.Mathlib.Text.{◌==◌ as text_eq}
use text.Mathlib.TextEquality.{eq_iff}
use zatestil.Prelude.{
  ◌≡◌, ap, ◌↔◌, Bool, true, false, not, [], ◌∷◌, arith, ◌==◌, ==_iff, bytes_eq, bytes_eq_refl,
  eq_of_bytes_eq,
}
use zatestil.Serde.{equal, compare_all-eq-true}
use zatestil.Message.{
  Action, start, get_account, MessageType, request, response, notify, Status, Message,
}

abbrev pub action_eq : Action → Action → Bool
action_eq start start = true
action_eq get_account get_account = true
action_eq _ _ = false

abbrev pub type_eq : MessageType → MessageType → Bool
type_eq request request = true
type_eq response response = true
type_eq notify notify = true
type_eq _ _ = false

abbrev pub bool_eq : Bool → Bool → Bool
bool_eq true b = b
bool_eq false b = not b

unfoldable pub status_eq : Status → Status → Bool
unfolding equal
status_eq a b = equal (bool_eq a.is_ok b.is_ok ∷ text_eq a.message b.message ∷ [])

unfoldable pub message_eq : Message → Message → Bool
unfolding equal
message_eq a b = equal (
    (a.id == b.id)
    ∷ type_eq a.type_of b.type_of
    ∷ action_eq a.action b.action
    ∷ status_eq a.status b.status
    ∷ bytes_eq a.text b.text
    ∷ [])

action_eq_iff : (a b : Action) → (action_eq a b ≡ true) ↔ (a ≡ b)
action_eq_iff a b = ground arith

type_eq_iff : (a b : MessageType) → (type_eq a b ≡ true) ↔ (a ≡ b)
type_eq_iff a b = ground arith

bool_eq_iff : (a b : Bool) → (bool_eq a b ≡ true) ↔ (a ≡ b)
bool_eq_iff a b = ground arith

status_path : {a b : Status} → a.is_ok ≡ b.is_ok → a.message ≡ b.message → a ≡ b
status_path p q = λ i. record { is_ok = p i; message = q i }

status_eq_iff : (a b : Status) → (status_eq a b ≡ true) ↔ (a ≡ b)
unfolding status_eq equal
status_eq_iff a b =
    let (f, g) = compare_all-eq-true (bool_eq a.is_ok b.is_ok ∷ text_eq a.message b.message ∷ []) in
    (
      λ e.
          let (o, (t, _)) = f e in
          status_path ((bool_eq_iff a.is_ok b.is_ok).0 o) ((eq_iff a.message b.message).0 t),
      λ e. g (
        (bool_eq_iff a.is_ok b.is_ok).1 (ap (λ x. x.is_ok) e),
        ((eq_iff a.message b.message).1 (ap (λ x. x.message) e), tt),
      ),
    )

message_path :
    {a b : Message}
    → a.id ≡ b.id
    → a.type_of ≡ b.type_of
    → a.action ≡ b.action
    → a.status ≡ b.status
    → a.text ≡ b.text
    → a ≡ b
message_path p q r s t =
    λ i. record { type_of = q i; id = p i; status = s i; action = r i; text = t i }

-- `operator==` of messages holds exactly for messages that are equal in all five members.
pub message_eq_iff : (a b : Message) → (message_eq a b ≡ true) ↔ (a ≡ b)
unfolding message_eq equal
message_eq_iff a b =
    let (f, g) = compare_all-eq-true (
      (a.id == b.id)
      ∷ type_eq a.type_of b.type_of
      ∷ action_eq a.action b.action
      ∷ status_eq a.status b.status
      ∷ bytes_eq a.text b.text
      ∷ []) in
    (
      λ e.
          let (i, (t, (c, (s, (x, _))))) = f e in
          message_path ((==_iff a.id b.id).0 i) ((type_eq_iff a.type_of b.type_of).0 t)
            ((action_eq_iff a.action b.action).0 c) ((status_eq_iff a.status b.status).0 s)
            (eq_of_bytes_eq a.text b.text x),
      λ e. g (
        (==_iff a.id b.id).1 (ap (λ x. x.id) e),
        (
          (type_eq_iff a.type_of b.type_of).1 (ap (λ x. x.type_of) e),
          (
            (action_eq_iff a.action b.action).1 (ap (λ x. x.action) e),
            (
              (status_eq_iff a.status b.status).1 (ap (λ x. x.status) e),
              (rw e (bytes_eq_refl b.text), tt),
            ),
          ),
        ),
      ),
    )
