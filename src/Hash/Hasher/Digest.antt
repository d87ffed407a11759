-- ===== src/Hash/Hasher/Digest.antt =====
-- source/hash/Hasher.cpp: which bytes are hashed.
use zatestil.Prelude.{
  ◌≡◌, refl, ap, ◌∙◌, some, List, [], ◌∷◌, map, append-nil, ok, take, length, Bytes,
}
use zatestil.Hash.{Hash, parse, string}
use zatestil.Hash.Text.{IsValid}
use zatestil.Hash.RoundTrip.{parse-string}
use zatestil.Hash.Hasher.{
  Sodium, SodiumLaws, concat, feed, Update, memory, vector, text, object, byte, make, apply,
  apply_all, hash, hash_members, update_memory, update_vector, update_text, update_byte,
  update_object,
}

-- The bytes of one update.
abbrev pub encode : Update → Bytes
encode (memory start length) = take length start
encode (vector bytes) = bytes
encode (text characters) = characters
encode (object bytes) = bytes
encode (byte b) = b ∷ []

module _ {s : Sodium} (laws : SodiumLaws s) where
  apply-encode : (state : s.State) (u : Update) → apply s state u ≡ s.update state (encode u)
  unfolding apply update_memory update_vector update_text update_byte update_object
  apply-encode state (memory start length) = refl
  apply-encode state (vector bytes) = refl
  apply-encode state (text characters) = refl
  apply-encode state (object bytes) = refl
  apply-encode state (byte b) = refl

  apply_all-feed :
      (state : s.State) (us : List Update) → apply_all s state us ≡ feed s state (map encode us)
  unfolding apply_all
  apply_all-feed state [] = refl
  apply_all-feed state (u ∷ us) =
      apply_all-feed (apply s state u) us
      ∙ ap (λ t. feed s t (map encode us)) (apply-encode state u)

  -- By the laws of libsodium, a hasher that was given any updates yields the SHA-256 of their bytes,
  -- one after the other, however they were cut into updates. The hash is valid, and is read back from
  -- its own text.
  pub hash_members_lem :
      (us : List Update)
      → (h : Hash) × (hash_members s us ≡ some h)
        × (h.bytes ≡ laws.sha256 (concat (map encode us)))
        × IsValid 32 h
        × (parse 32 (string 32 h) ≡ ok h)
  unfolding hash_members hash make
  hash_members_lem us =
      let h : Hash = record { bytes = laws.sha256 (concat (map encode us)) } in
      let valid : IsValid 32 h = record {
        sized = laws.sized (concat (map encode us));
        in_range = laws.in_range (concat (map encode us));
      } in
      (
        h,
        ap (λ b. some (record { bytes = b }))
            (append-nil (s.final (apply_all s s.init us))
              ∙ ap (λ t. s.final t) (apply_all-feed s.init us)
              ∙ laws.multi_part (map encode us)),
        refl,
        valid,
        parse-string 32 h valid,
      )
