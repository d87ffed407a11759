-- ===== src/Serde.antt =====
-- include/serde/serde.hpp: the binary and JSON form of a value, and the comparison of values member
-- by member. The archives of yas are a parameter: what it writes and reads for a type.
pub mod Tests
use zatestil.Prelude.{
  ◌≡◌, refl, Bool, true, false, not, ◌&&◌, List, [], ◌∷◌, Attempt, ok, ◌>>=◌, ◌↔◌, All, Bytes,
}

-- yas for one type: the value `T {}`, the two archives that write, and the two that read into a
-- value and may throw.
pub record Yas {ℓ} (T : Type ℓ) : Type ℓ where
  pub initial : T
  pub save_binary : T → Bytes
  pub load_binary : T → Bytes → Attempt T
  pub save_json : T → Bytes
  pub load_json : T → Bytes → Attempt T

-- What is written is read back, whatever the value held before.
pub record IsFaithful {ℓ} {T : Type ℓ} (yas : Yas T) : Type ℓ where
  pub binary_back : (v w : T) → yas.load_binary v (yas.save_binary w) ≡ ok w
  pub json_back : (v w : T) → yas.load_json v (yas.save_json w) ≡ ok w

module _ {ℓ} {T : Type ℓ} (yas : Yas T) where
  unfoldable pub to_binary : T → Bytes
  to_binary v = yas.save_binary v

  -- Both overloads: a `string_view`, and a pointer with a size.
  unfoldable pub from_binary : Bytes → Attempt T
  from_binary buffer = yas.load_binary yas.initial buffer

  unfoldable pub to_json : T → Bytes
  to_json v = yas.save_json v

  unfoldable pub from_json : Bytes → Attempt T
  from_json buffer = yas.load_json yas.initial buffer

-- `comparable_as`: `result &= compare(member, other.member)` for each member.
unfoldable pub compare_all : Bool → List Bool → Bool
compare_all result [] = result
compare_all result (c ∷ cs) = compare_all (result && c) cs

-- `operator==` of `comparable_as`, and of `inherited_comparable_as`, which starts from the comparison
-- of the base class.
unfoldable pub equal : List Bool → Bool
unfolding compare_all
equal members = compare_all true members

unfoldable pub equal_inherited : Bool → List Bool → Bool
unfolding compare_all
equal_inherited base members = compare_all base members

-- `operator!=`
unfoldable pub unequal : Bool → Bool
unequal same = not same

compare_all-false : (cs : List Bool) → compare_all false cs ≡ false
unfolding compare_all
compare_all-false [] = refl
compare_all-false (c ∷ cs) = compare_all-false cs

-- The operator `==` that `comparable_as` defines is true exactly if each member compares equal, in
-- whatever order the members stand.
pub compare_all-eq-true : (cs : List Bool) → (compare_all true cs ≡ true) ↔ All (λ c. c ≡ true) cs
unfolding compare_all
compare_all-eq-true [] = (λ _. tt, λ _. refl)
compare_all-eq-true (true ∷ cs) =
    let (f, g) = compare_all-eq-true cs in (λ e. (refl, f e), λ h. g h.1)
compare_all-eq-true (false ∷ cs) =
    (λ e. absurd (cc (e, compare_all-false cs)), λ h. absurd (cc (h.0)))
