-- ===== src/Database/Rows/Parts.antt =====
-- The rows before and after a place of a map.
use zatestil.Prelude.{
  ◌≡◌, refl, sym, ap, ◌∙◌, Bool, true, false, [], ◌∷◌, arith, All, All-map, Bytes, bytes_eq,
  bytes_lt, bytes_lt_irrefl, bytes_eq_refl, eq_of_bytes_eq,
}
use mathlib.Core.Path.{subst}
use zatestil.Database.Rows.{Row, Rows, IsSorted, Above, joined, from_first, is_key}

pub IsSorted-parts : (b a : Rows) → IsSorted (joined b a) → IsSorted a × All (λ r. Above r.key a) b
unfolding joined
IsSorted-parts [] a s = (s, tt)
IsSorted-parts (r ∷ b) a s =
    let (t, above) = IsSorted-parts b (r ∷ a) s in
    (t.1, (t.0, All-map (λ q. Above q.key (r ∷ a)) (λ q. Above q.key a) (λ q h. h.1) b above))

pub ne_of_lt : (k l : Bytes) → bytes_lt k l ≡ true → bytes_eq k l ≡ false
ne_of_lt k l h = ground (arith, eq_of_bytes_eq k l, bytes_lt_irrefl k)

from_first-joined :
    (test : Bytes → Bool) (b a : Rows)
    → All (λ r. test r.key ≡ false) b
    → from_first test (joined b a) ≡ from_first test a
unfolding joined from_first
from_first-joined test [] a h = refl
from_first-joined test (r ∷ b) a h = from_first-joined test b (r ∷ a) h.1 ∙ rw h.0 refl

-- In sorted rows the key under a place says which rows are ahead.
pub ahead_lem :
    (b : Rows) (x : Row) (a : Rows)
    → IsSorted (joined b (x ∷ a))
    → from_first (is_key x.key) (joined b (x ∷ a)) ≡ x ∷ a
unfolding from_first
ahead_lem b x a s =
    from_first-joined (is_key x.key) b (x ∷ a) (
      All-map (λ r. Above r.key (x ∷ a)) (λ r. bytes_eq r.key x.key ≡ false)
        (λ r h. ne_of_lt r.key x.key h.0) b (IsSorted-parts b (x ∷ a) s).1)
    ∙ rw (bytes_eq_refl x.key) refl

-- Two places in the same sorted rows with the same key under them have the same rows ahead.
pub ahead_unique :
    (rs b : Rows) (x : Row) (a b' : Rows) (y : Row) (a' : Rows)
    → IsSorted rs
    → rs ≡ joined b (x ∷ a)
    → rs ≡ joined b' (y ∷ a')
    → x.key ≡ y.key
    → ◌≡◌ {A = Rows} (x ∷ a) (y ∷ a')
ahead_unique rs b x a b' y a' s e f k =
    sym (ahead_lem b x a (subst IsSorted e s))
    ∙ ap (from_first (is_key x.key)) (sym e)
    ∙ (λ i. from_first (is_key (k i)) (f i))
    ∙ ahead_lem b' y a' (subst IsSorted f s)
