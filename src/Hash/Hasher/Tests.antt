-- ===== src/Hash/Hasher/Tests.antt =====
-- source/hash/Hasher.cpp: a checksum of 32 bytes in place of SHA-256, and a hash of three updates.
use zatestil.Prelude.{
  ℕ, zero, suc, All, ◌+◌, ◌*◌, ◌%◌, ◌<◌, ◌≡◌, refl, sym, ap, ◌∙◌, List, [], ◌∷◌, ◌++◌, append-nil,
  append_assoc, arith, replicate, Bytes,
}
use zatestil.Hash.Text.{IsByte}
use zatestil.Prelude.{map, some, ok}
use zatestil.Hash.{Hash, parse, string}
use zatestil.Hash.Text.{IsValid}
use zatestil.Hash.Hasher.Digest.{encode, hash_members_lem}
use zatestil.Hash.Hasher.{
  hash_members, Sodium, SodiumLaws, concat, feed, Update, text, byte, memory,
}

abbrev checksum : Bytes → ℕ
checksum [] = 0
checksum (b ∷ bytes) = b + 3 * checksum bytes

abbrev sum_hash : Bytes → Bytes
sum_hash message = checksum message % 256 ∷ replicate 31 7

abbrev sums : Sodium
sums = record { State = Bytes; init = []; update = λ s bytes. s ++ bytes; final = sum_hash }

feed-sums : (state : Bytes) (chunks : List Bytes) → feed sums state chunks ≡ state ++ concat chunks
feed-sums state [] = sym (append-nil state)
feed-sums state (c ∷ cs) = feed-sums (state ++ c) cs ∙ append_assoc state c (concat cs)

All-replicate : (n b : ℕ) → b < 256 → All IsByte (replicate n b)
All-replicate zero b small = tt
All-replicate (suc n) b small = (small, All-replicate n b small)

in_range-sum_hash : (message : Bytes) → All IsByte (sum_hash message)
in_range-sum_hash message = (omega arith, All-replicate 31 7 (omega arith))

abbrev sums_lawful : SodiumLaws sums
sums_lawful = record {
  sha256 = sum_hash;
  multi_part = λ chunks. ap sum_hash (feed-sums [] chunks);
  sized = λ message. refl;
  in_range = in_range-sum_hash;
}

abbrev members : List Update
members = text (97 ∷ 98 ∷ []) ∷ byte 5 ∷ memory (1 ∷ 2 ∷ 3 ∷ []) 2 ∷ []

hash_members_lem_example :
    (h : Hash) × (hash_members sums members ≡ some h)
    × (h.bytes ≡ sum_hash (concat (map encode members)))
    × IsValid 32 h
    × (parse 32 (string 32 h) ≡ ok h)
hash_members_lem_example = hash_members_lem sums_lawful members
