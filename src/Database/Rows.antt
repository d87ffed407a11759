-- ===== src/Database/Rows.antt =====
-- The abstract view of one map of libmdbx: rows in the order of their keys, and a place between
-- them. It is what the laws of the interface speak of.
pub mod Parts
use zatestil.Prelude.{
  ℕ, ◌≡◌, refl, Bool, true, false, Option, none, some, List, [], ◌∷◌, arith, if◌then◌else◌, All,
  Bytes, bytes_eq, bytes_lt, bytes_eq_refl, eq_of_bytes_eq, bytes_lt_irrefl, bytes_lt_trans,
  bytes_lt_total, bytes_eq_symm, Bool-cases, inl, inr,
}

pub record Row : Type 0 where
  pub key : Bytes
  pub value : Bytes

abbrev pub Rows : Type 0
Rows = List Row

unfoldable pub lookup : Bytes → Rows → Option Bytes
lookup k [] = none
lookup k (r ∷ rs) = if bytes_eq r.key k then some r.value else lookup k rs

-- The row of `k` now holds `v`; a new row goes to its place in the order.
unfoldable pub put_row : Bytes → Bytes → Rows → Rows
put_row k v [] = record { key = k; value = v } ∷ []
put_row k v (r ∷ rs) =
    if bytes_eq r.key k
    then record { key = k; value = v } ∷ rs
    else if bytes_lt k r.key
    then record { key = k; value = v } ∷ r ∷ rs
    else r ∷ put_row k v rs

unfoldable pub erase_row : Bytes → Rows → Rows
erase_row k [] = []
erase_row k (r ∷ rs) = if bytes_eq r.key k then rs else r ∷ erase_row k rs

abbrev pub Above : Bytes → Rows → Type 0
Above k = All (λ r. bytes_lt k r.key ≡ true)

-- Strictly rising keys.
abbrev pub IsSorted : Rows → Type 0
IsSorted [] = Unit {0}
IsSorted (r ∷ rs) = Above r.key rs × IsSorted rs

pub lookup-put_row :
    (k j v : Bytes) (rs : Rows)
    → lookup j (put_row k v rs) ≡ (if bytes_eq k j then some v else lookup j rs)
unfolding lookup put_row
lookup-put_row k j v [] = refl
lookup-put_row k j v (r ∷ rs) = ground (
  arith,
  lookup-put_row k j v rs,
  eq_of_bytes_eq r.key k,
  eq_of_bytes_eq r.key j,
  eq_of_bytes_eq k j,
  bytes_eq_refl k,
)

Above-put_row :
    (l k v : Bytes) (rs : Rows) → bytes_lt l k ≡ true → Above l rs → Above l (put_row k v rs)
unfolding put_row
Above-put_row l k v [] h a = (h, tt)
Above-put_row l k v (r ∷ rs) h a = ground (arith, Above-put_row l k v rs h a.1)

Above-trans : (k l : Bytes) (rs : Rows) → bytes_lt k l ≡ true → Above l rs → Above k rs
Above-trans k l [] h a = tt
Above-trans k l (r ∷ rs) h a = (bytes_lt_trans k l r.key h a.0, Above-trans k l rs h a.1)

pub put_row-IsSorted : (k v : Bytes) (rs : Rows) → IsSorted rs → IsSorted (put_row k v rs)
unfolding put_row
put_row-IsSorted k v [] s = (tt, tt)
put_row-IsSorted k v (r ∷ rs) s = ground (
  arith,
  put_row-IsSorted k v rs s.1,
  Above-put_row r.key k v rs,
  eq_of_bytes_eq r.key k,
  bytes_eq_symm r.key k,
  bytes_lt_total k r.key,
  Above-trans k r.key rs,
)

lookup-Above : (k : Bytes) (rs : Rows) → Above k rs → lookup k rs ≡ none
unfolding lookup
lookup-Above k [] a = refl
lookup-Above k (r ∷ rs) a =
    ground (arith, lookup-Above k rs a.1, eq_of_bytes_eq r.key k, bytes_lt_irrefl k)

pub lookup-erase_row :
    (k j : Bytes) (rs : Rows)
    → IsSorted rs
    → lookup j (erase_row k rs) ≡ (if bytes_eq k j then none else lookup j rs)
unfolding lookup erase_row
lookup-erase_row k j [] s = ground arith
lookup-erase_row k j (r ∷ rs) s = ground (
  arith,
  lookup-erase_row k j rs s.1,
  eq_of_bytes_eq r.key k,
  eq_of_bytes_eq k j,
  eq_of_bytes_eq r.key j,
  bytes_eq_refl j,
  lookup-Above r.key rs s.0,
)

-- A place in a map: the rows before it, nearest first, and the rows from it on. `stale` marks that
-- the row under the cursor was deleted, so that the first row ahead is still to come.
pub record Place : Type 0 where
  pub on_map : ℕ
  pub behind : Rows
  pub ahead : Rows
  pub stale : Bool

abbrev pub is_nil : Rows → Bool
is_nil [] = true
is_nil (r ∷ rs) = false

abbrev pub first : Rows → Option Row
first [] = none
first (r ∷ rs) = some r

abbrev pub rest : Rows → Rows
rest [] = []
rest (r ∷ rs) = rs

-- The rows around a place, in order.
unfoldable pub joined : (behind ahead : Rows) → Rows
joined [] ahead = ahead
joined (r ∷ behind) ahead = joined behind (r ∷ ahead)

abbrev pub whole : Place → Rows
whole p = joined p.behind p.ahead

-- Past the row under the cursor, or onto the one that follows a deleted row.
abbrev step_over : Rows → Rows → Rows × Rows
step_over behind [] = (behind, [])
step_over behind (r ∷ ahead) = (r ∷ behind, ahead)

abbrev pub forward : Place → Place
forward p = if p.stale then record p { stale = false } else record p {
  behind = (step_over p.behind p.ahead).0;
  ahead = (step_over p.behind p.ahead).1;
}

-- The place of the first row that passes a test, from the start of a map.
unfoldable pub seek : (Bytes → Bool) → (behind ahead : Rows) → Rows × Rows
seek test behind [] = (behind, [])
seek test behind (r ∷ ahead) =
    if test r.key then (behind, r ∷ ahead) else seek test (r ∷ behind) ahead

abbrev pub place_at : ℕ → (Bytes → Bool) → Rows → Place
place_at p test rows = record {
  on_map = p;
  behind = (seek test [] rows).0;
  ahead = (seek test [] rows).1;
  stale = false;
}

-- The rows from the first that passes a test.
unfoldable pub from_first : (Bytes → Bool) → Rows → Rows
from_first test [] = []
from_first test (r ∷ rs) = if test r.key then r ∷ rs else from_first test rs

pub seek-ahead :
    (test : Bytes → Bool) (behind rs : Rows) → (seek test behind rs).1 ≡ from_first test rs
unfolding seek from_first
seek-ahead test behind [] = refl
seek-ahead test behind (r ∷ rs) = ground (arith, seek-ahead test (r ∷ behind) rs)

pub seek-joined :
    (test : Bytes → Bool) (behind rs : Rows)
    → joined (seek test behind rs).0 (seek test behind rs).1 ≡ joined behind rs
unfolding seek joined
seek-joined test behind [] = refl
seek-joined test behind (r ∷ rs) = ground (arith, seek-joined test (r ∷ behind) rs)

abbrev pub is_key : Bytes → Bytes → Bool
is_key k j = bytes_eq j k

-- A key that has a row is found there.
pub from_first-lookup :
    (k v : Bytes) (rs : Rows)
    → lookup k rs ≡ some v
    → (r : Row) × (after : Rows) × (from_first (is_key k) rs ≡ r ∷ after)
      × (r.key ≡ k)
      × (r.value ≡ v)
unfolding lookup from_first
from_first-lookup k v [] e = absurd (cc e)
from_first-lookup k v (r ∷ rs) e = elim (Bool-cases (bytes_eq r.key k)) [
  | inl here ↦ (r, rs, rw here, eq_of_bytes_eq r.key k here, ground arith)
  | inr past ↦
      let (s, after, f, g, h) = from_first-lookup k v rs (rw past at e) in
      (s, after, rw past f, g, h)
]

-- Without the row that was found, the rows are those of the map less that key.
pub seek-erase_row :
    (k : Bytes) (behind rs : Rows)
    → joined (seek (is_key k) behind rs).0 (rest (seek (is_key k) behind rs).1)
      ≡ joined behind (erase_row k rs)
unfolding seek joined erase_row
seek-erase_row k behind [] = refl
seek-erase_row k behind (r ∷ rs) = ground (arith, seek-erase_row k (r ∷ behind) rs)
