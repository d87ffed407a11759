-- ===== src/Hash/Hasher.antt =====
-- include/hash/Hasher.hpp, source/hash/Hasher.cpp and include/hash/hash.hpp: SHA-256 of a sequence of
-- updates. The functions `crypto_hash_sha256_…` of libsodium are a parameter.
pub mod Digest
pub mod Tests
use zatestil.Prelude.{
  ℕ, ◌-◌, ◌≡◌, Option, none, some, List, [], ◌∷◌, ◌++◌, ltb, if◌then◌else◌, length, replicate, take,
  All, Attempt, ok, throw, Bytes,
}
use zatestil.Hash.{Hash, null, parse}
use zatestil.Hash.Text.{IsByte}

pub record Sodium : Type 1 where
  pub State : Type 0  -- crypto_hash_sha256_state
  pub init : State
  pub update : State → Bytes → State
  pub final : State → Bytes

abbrev pub concat : List Bytes → Bytes
concat [] = []
concat (c ∷ cs) = c ++ concat cs

abbrev pub feed : (s : Sodium) → s.State → List Bytes → s.State
feed s state [] = state
feed s state (c ∷ cs) = feed s (s.update state c) cs

-- What libsodium documents: the parts of a message that is given in several calls are hashed as the
-- whole message is, and a hash has 32 bytes (`crypto_hash_sha256_BYTES`).
pub record SodiumLaws (s : Sodium) : Type 0 where
  pub sha256 : Bytes → Bytes
  pub multi_part : (chunks : List Bytes) → s.final (feed s s.init chunks) ≡ sha256 (concat chunks)
  pub sized : (message : Bytes) → length (sha256 message) ≡ 32
  pub in_range : (message : Bytes) → All IsByte (sha256 message)

-- The calls of `update`: with a pointer and a length, a vector, a string, a byte, and any other value,
-- which is hashed as the bytes of its object in memory.
pub data Update : Type 0 where
  memory : Bytes → ℕ → Update
  vector text object : Bytes → Update
  byte : ℕ → Update

module _ (s : Sodium) where
  -- The constructor.
  unfoldable pub make : s.State
  make = s.init

  unfoldable pub update_memory : s.State → Bytes → ℕ → s.State
  update_memory state start length = s.update state (take length start)

  unfoldable pub update_vector : s.State → Bytes → s.State
  update_vector state bytes = s.update state bytes

  unfoldable pub update_text : s.State → Bytes → s.State
  update_text state characters = s.update state characters

  unfoldable pub update_byte : s.State → ℕ → s.State
  update_byte state b = s.update state (b ∷ [])

  -- `update(T const&)`, with the bytes of the object.
  unfoldable pub update_object : s.State → Bytes → s.State
  update_object state bytes = s.update state bytes

  -- `hash<size>()`: 32 bytes are written at the start of a null hash of `size` bytes. `none` is a
  -- write past its end.
  unfoldable pub hash : ℕ → s.State → Option Hash
  hash size state =
      if ltb size 32
      then none
      else some (record { bytes = s.final state ++ replicate (size - 32) 0 })

  unfoldable pub apply : s.State → Update → s.State
  unfolding update_memory update_vector update_text update_byte update_object
  apply state (memory start length) = update_memory state start length
  apply state (vector bytes) = update_vector state bytes
  apply state (text characters) = update_text state characters
  apply state (object bytes) = update_object state bytes
  apply state (byte b) = update_byte state b

  -- A hasher, its updates, and its hash, as `hashable_as` writes them for the members of a type.
  unfoldable pub apply_all : s.State → List Update → s.State
  unfolding apply
  apply_all state [] = state
  apply_all state (u ∷ us) = apply_all (apply state u) us

  unfoldable pub hash_members : List Update → Option Hash
  unfolding apply_all make hash
  hash_members members = hash 32 (apply_all make members)

-- `hash::null`
unfoldable pub null_hash : Hash
null_hash = null 32

abbrev or_terminate : Attempt Hash → Option Hash
or_terminate (ok h) = some h
or_terminate (throw message) = none

-- `hash::parse`, which is `noexcept`: `none` is the end of the program.
unfoldable pub parse_hash : List ℕ → Option Hash
unfolding parse
parse_hash characters = or_terminate (parse 32 characters)
