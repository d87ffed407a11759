-- ===== src/Database/Cursor/Moving.antt =====
-- include/database/ConstCursor.hpp: where `operator++` and `operator--` lead.
use zatestil.Prelude.{ℕ, ◌≡◌, refl, ap, ◌∙◌, false, not, [], ◌∷◌, arith, ok, throw, some}
use zatestil.Database.Rows.{Row, Rows, Place, is_nil, first, forward}
use zatestil.Database.Mdbx.{Mdbx, Laws}
use zatestil.Database.Operation.{Reader}
use zatestil.Database.Cursor.{Cursor, bad, current_row, key, raw_value, moved, increment, decrement}

module _ {m : Mdbx} (laws : Laws m) where
  open laws use {place}

  -- A cursor with the rows `behind` it, nearest first, and the rows from it on; with none of these it has ended.
  pub record Stands (r : Reader m) (c : Cursor m) (on_map : ℕ) (behind ahead : Rows) : Type 0 where
    pub there :
        place r.txn c.cursor
        ≡ record { on_map = on_map; behind = behind; ahead = ahead; stale = false }
    pub at_end : c.ended ≡ is_nil ahead

  -- What a cursor on the rows `ahead` reads.
  unfoldable pub Views : Reader m → Cursor m → Rows → Type 0
  Views r c [] =
      (key r c ≡ throw (bad "bad cursor" c.db c.table))
      × (raw_value r c ≡ throw (bad "bad cursor" c.db c.table))
  Views r c (x ∷ after) = (key r c ≡ ok x.key) × (raw_value r c ≡ ok x.value)

  pub Stands-Views :
      (r : Reader m) (c : Cursor m) {p : ℕ} {behind : Rows} (ahead : Rows)
      → Stands r c p behind ahead
      → Views r c ahead
  unfolding Views key raw_value current_row
  Stands-Views r c [] s = let e = s.at_end in (rw e refl, rw e refl)
  Stands-Views r c (x ∷ after) s =
      let e = s.at_end in
      let at : m.current r.txn c.cursor ≡ some x =
        laws.current-first r.txn c.cursor ∙ ap (λ q. first q.ahead) s.there in
      (rw (e, at) refl, rw (e, at) refl)

  pub increment-Stands :
      (r : Reader m) (c : Cursor m) {p : ℕ} {behind : Rows} (x : Row) (after : Rows)
      → Stands r c p behind (x ∷ after)
      → (d : Cursor m) × (increment r c ≡ ok d) × Stands r d p (x ∷ behind) after
  unfolding increment moved
  increment-Stands r c {p} {behind} x after s =
      let n = (m.to_next r.txn c.cursor).0 in
      let at = laws.to_next-place r.txn c.cursor ∙ ap forward s.there in
      let end : m.eof r.txn n ≡ is_nil after = laws.eof-nil r.txn n ∙ ap (λ q. is_nil q.ahead) at in
      let hit : (m.to_next r.txn c.cursor).1 ≡ not (is_nil after) =
        laws.to_next-found r.txn c.cursor ∙ ap (λ q. not (is_nil (forward q).ahead)) s.there in
      (
        record c { ended = is_nil after; cursor = n },
        ground (arith, s.at_end),
        record { there = at; at_end = refl },
      )

  pub decrement-Stands :
      (r : Reader m) (c : Cursor m) {p : ℕ} (x : Row) (behind : Rows) (y : Row) (after : Rows)
      → Stands r c p (x ∷ behind) (y ∷ after)
      → (d : Cursor m) × (decrement r c ≡ ok d) × Stands r d p behind (x ∷ y ∷ after)
  unfolding decrement moved
  decrement-Stands r c {p} x behind y after s =
      let n = (m.to_previous r.txn c.cursor).0 in
      let (hit, back) =
        laws.to_previous-row r.txn c.cursor x behind (ap (λ q. q.behind) s.there)
          (ap (λ q. q.stale) s.there) in
      let at =
        back ∙ ap {A = Place} (λ q. record q { behind = behind; ahead = x ∷ q.ahead }) s.there in
      let end : m.eof r.txn n ≡ false = laws.eof-nil r.txn n ∙ ap (λ q. is_nil q.ahead) at in
      (
        record c { ended = false; cursor = n },
        ground (arith, s.at_end),
        record { there = at; at_end = refl },
      )

  -- What comes of `--` on the cursor `d` that `++` has left with the rows `ahead`, on the row `x` before that.
  pub Returns : Reader m → Cursor m → ℕ → Rows → Row → Rows → Type 0
  Returns r d p behind x [] = decrement r d ≡ throw (bad "bad cursor" d.db d.table)
  Returns r d p behind x (y ∷ after) =
      (e : Cursor m) × (decrement r d ≡ ok e) × Stands r e p behind (x ∷ y ∷ after)

  back :
      (r : Reader m) (d : Cursor m) {p : ℕ} {behind : Rows} (x : Row) (ahead : Rows)
      → Stands r d p (x ∷ behind) ahead
      → Returns r d p behind x ahead
  unfolding Returns decrement
  back r d x [] s = let e = s.at_end in rw e refl
  back r d {behind = behind} x (y ∷ after) s = decrement-Stands r d x behind y after s

  -- By the laws of libmdbx, `++` on a cursor that stands on a row throws nothing and leads to the next row,
  -- or to the end behind the last row, where each read throws that the cursor is bad. `--` leads from there back
  -- to the row where it was, except from the end, where it throws that the cursor is bad.
  pub decrement-increment :
      (r : Reader m) (c : Cursor m) (p : ℕ) (behind : Rows) (x : Row) (after : Rows)
      → Stands r c p behind (x ∷ after)
      → (d : Cursor m) × (increment r c ≡ ok d) × Views r d after × Returns r d p behind x after
  decrement-increment r c p behind x after s =
      let (d, steps, there) = increment-Stands r c x after s in
      (d, steps, Stands-Views r d after there, back r d x after there)
