-- ===== src/Object.antt =====
-- include/object: accounts and blocks, with the comparisons that `serializable_as` defines.
pub mod Equality
pub mod Tests
use zatestil.Hash.Hasher.{Sodium, object, hash_members}
use zatestil.Prelude.{Option}
use Prim.Native.String.{String}
use text.Mathlib.Text.{◌==◌ as text_eq}
use zatestil.Prelude.{ℕ, Bool, true, false, [], ◌∷◌, ◌==◌, bytes_eq}
use zatestil.Serde.{equal, compare_all}
use zatestil.Hash.{Hash}

-- `Account::Status`
pub data AccountStatus : Type 0 where
  new registered : AccountStatus

-- `Account::Name`
pub record Name : Type 0 where
  pub user : String
  pub last : String
  pub first : String

pub record Account : Type 0 where
  pub id : ℕ
  pub status : AccountStatus
  pub name : Name

pub record Block : Type 0 where
  pub prev : Hash

abbrev pub status_eq : AccountStatus → AccountStatus → Bool
status_eq new new = true
status_eq registered registered = true
status_eq _ _ = false

unfoldable pub name_eq : Name → Name → Bool
unfolding equal compare_all
name_eq a b = equal (text_eq a.user b.user ∷ text_eq a.last b.last ∷ text_eq a.first b.first ∷ [])

unfoldable pub account_eq : Account → Account → Bool
unfolding equal compare_all
account_eq a b = equal ((a.id == b.id) ∷ status_eq a.status b.status ∷ name_eq a.name b.name ∷ [])

-- `operator==` of `Hash`, on `m_data`.
unfoldable pub hash_eq : Hash → Hash → Bool
unfolding equal compare_all
hash_eq a b = equal (bytes_eq a.bytes b.bytes ∷ [])

unfoldable pub block_eq : Block → Block → Bool
unfolding equal compare_all hash_eq
block_eq a b = equal (hash_eq a.prev b.prev ∷ [])

-- `Block::hash`, where `m_data` is all of `prev`.
unfoldable pub block_hash : (s : Sodium) → Block → Option Hash
unfolding hash_members
block_hash s b = hash_members s (object b.prev.bytes ∷ [])
