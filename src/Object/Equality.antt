-- ===== src/Object/Equality.antt =====
-- include/object: the comparisons decide equality.
use text.Mathlib.Text.{◌==◌ as text_eq}
use text.Mathlib.TextEquality.{eq_iff}
use zatestil.Prelude.{
  ◌≡◌, refl, ap, ◌↔◌, true, [], ◌∷◌, arith, ◌==◌, ==_iff, bytes_eq_refl, eq_of_bytes_eq,
}
use zatestil.Serde.{equal, compare_all, compare_all-eq-true}
use zatestil.Object.{
  AccountStatus, Name, Account, Block, status_eq, name_eq, account_eq, hash_eq, block_eq,
}

status_eq_iff : (a b : AccountStatus) → (status_eq a b ≡ true) ↔ (a ≡ b)
status_eq_iff a b = ground arith

name_path : {a b : Name} → a.user ≡ b.user → a.last ≡ b.last → a.first ≡ b.first → a ≡ b
name_path p q r = λ i. record { user = p i; last = q i; first = r i }

pub name_eq_iff : (a b : Name) → (name_eq a b ≡ true) ↔ (a ≡ b)
unfolding name_eq equal
name_eq_iff a b =
    let (f, g) =
      compare_all-eq-true
        (text_eq a.user b.user ∷ text_eq a.last b.last ∷ text_eq a.first b.first ∷ []) in
    (
      λ e.
          let (u, (l, (n, _))) = f e in
          name_path ((eq_iff a.user b.user).0 u) ((eq_iff a.last b.last).0 l)
            ((eq_iff a.first b.first).0 n),
      λ e. g (
        (eq_iff a.user b.user).1 (ap (λ x. x.user) e),
        (
          (eq_iff a.last b.last).1 (ap (λ x. x.last) e),
          ((eq_iff a.first b.first).1 (ap (λ x. x.first) e), tt),
        ),
      ),
    )

account_path : {a b : Account} → a.id ≡ b.id → a.status ≡ b.status → a.name ≡ b.name → a ≡ b
account_path p q r = λ i. record { id = p i; status = q i; name = r i }

-- `operator==` of accounts holds exactly for accounts that are equal in their id, status and name.
pub account_eq_iff : (a b : Account) → (account_eq a b ≡ true) ↔ (a ≡ b)
unfolding account_eq equal
account_eq_iff a b =
    let (f, g) =
      compare_all-eq-true
        ((a.id == b.id) ∷ status_eq a.status b.status ∷ name_eq a.name b.name ∷ []) in
    (
      λ e.
          let (i, (s, (n, _))) = f e in
          account_path ((==_iff a.id b.id).0 i) ((status_eq_iff a.status b.status).0 s)
            ((name_eq_iff a.name b.name).0 n),
      λ e. g (
        (==_iff a.id b.id).1 (ap (λ x. x.id) e),
        (
          (status_eq_iff a.status b.status).1 (ap (λ x. x.status) e),
          ((name_eq_iff a.name b.name).1 (ap (λ x. x.name) e), tt),
        ),
      ),
    )

-- `operator==` of blocks holds exactly for blocks whose previous hashes have the same bytes.
pub block_eq_iff : (a b : Block) → (block_eq a b ≡ true) ↔ (a.prev.bytes ≡ b.prev.bytes)
unfolding block_eq hash_eq equal compare_all
block_eq_iff a b = (
  λ e. eq_of_bytes_eq a.prev.bytes b.prev.bytes (ground arith),
  λ e. rw e (rw (bytes_eq_refl b.prev.bytes) refl),
)
