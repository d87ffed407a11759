-- ===== src/Database/Memory.antt =====
-- A store in memory that behaves as `Laws` asks of libmdbx: the laws can be met, and the definitions
-- of the database run on it.
use mathlib.Core.Path.{subst}
use zatestil.Prelude.{
  ℕ, ◌≡◌, ◌≢◌, refl, sym, ap, ◌∙◌, Bool, true, false, not, Option, none, some, [], ◌∷◌, arith, ◌==◌,
  if◌then◌else◌, Attempt, ok, throw, All, All-map, Bytes, bytes_eq, bytes_lt, bytes_eq_refl,
}
use zatestil.Database.Rows.{
  Row, Rows, lookup, put_row, erase_row, IsSorted, Above, put_row-IsSorted, Place, is_nil, first,
  whole, seek-ahead, from_first-lookup, lookup-put_row, forward, place_at, is_key, joined,
}
use zatestil.Database.Rows.Parts.{IsSorted-parts, ne_of_lt}
use zatestil.Database.Mdbx.{Mdbx, View, Laws, Written}

-- The rows of one map.
pub record Shelf : Type 0 where
  pub held : Rows
  pub sorted : IsSorted held

abbrev pub Shelves : Type 0
Shelves = ℕ → Shelf

abbrev pub no_rows : Shelf
no_rows = record { held = []; sorted = tt }

pub record Txn : Type 0 where
  pub shelves : Shelves
  pub can_write : Bool

abbrev store : Shelves → ℕ → Shelf → Shelves
store f p s q = if p == q then s else f q

abbrev held_at : Txn → ℕ → Rows
held_at t p = (t.shelves p).held

unfoldable pub put_shelf : Bytes → Bytes → Shelf → Shelf
put_shelf k v s = record {
  held = put_row k v s.held;
  sorted = put_row-IsSorted k v s.held s.sorted;
}

Above-erase_row : (l k : Bytes) (rs : Rows) → Above l rs → Above l (erase_row k rs)
unfolding erase_row
Above-erase_row l k [] a = tt
Above-erase_row l k (r ∷ rs) a = ground (arith, Above-erase_row l k rs a.1)

pub erase_row-IsSorted : (k : Bytes) (rs : Rows) → IsSorted rs → IsSorted (erase_row k rs)
unfolding erase_row
erase_row-IsSorted k [] s = tt
erase_row-IsSorted k (r ∷ rs) s =
    ground (arith, erase_row-IsSorted k rs s.1, Above-erase_row r.key k rs s.0)

pub erase_shelf : Bytes → Shelf → Shelf
erase_shelf k s = record {
  held = erase_row k s.held;
  sorted = erase_row-IsSorted k s.held s.sorted;
}

erase_row-joined :
    (k : Bytes) (b a a' : Rows)
    → All (λ r. bytes_eq r.key k ≡ false) b
    → erase_row k a ≡ a'
    → erase_row k (joined b a) ≡ joined b a'
unfolding joined erase_row
erase_row-joined k [] a a' h e = e
erase_row-joined k (r ∷ b) a a' h e =
    erase_row-joined k b (r ∷ a) (r ∷ a') h.1 (rw h.0 (ap (◌∷◌ r) e))

abbrev put_at : Txn → ℕ → Bytes → Bytes → Txn
put_at t p k v = record t { shelves = store t.shelves p (put_shelf k v (t.shelves p)) }

-- The row put, and a cursor on it.
abbrev put_and_seek : Txn → Place → Bytes → Bytes → Txn × Place
put_and_seek t c k v =
    (put_at t c.on_map k v, place_at c.on_map (is_key k) (put_row k v (held_at t c.on_map)))

-- Back from the rows behind a place.
abbrev step_back : Place → Rows → Place × Bool
step_back c [] = (c, false)
step_back c (r ∷ b) = (record c { behind = b; ahead = r ∷ c.ahead; stale = false }, true)

abbrev backward : Place → Place × Bool
backward c = step_back c c.behind

pub backward-row :
    (c : Place) (r : Row) (behind : Rows)
    → c.behind ≡ r ∷ behind
    → c.stale ≡ false
    → ((backward c).1 ≡ true) × ((backward c).0 ≡ record c { behind = behind; ahead = r ∷ c.ahead })
backward-row c r behind e s =
    rw e (refl, ap (λ b. record c { behind = behind; ahead = r ∷ c.ahead; stale = b }) (sym s))

abbrev find_place : Txn → Place → Bytes → Option Bytes → Place × Bool
find_place t c k none = (c, false)
find_place t c k (some v) = (place_at c.on_map (is_key k) (held_at t c.on_map), true)

abbrev erase_first : Txn → Place → Rows → Txn × Place × Bool
erase_first t c [] = (t, c, false)
erase_first t c (x ∷ after) = (
  record t { shelves = store t.shelves c.on_map (erase_shelf x.key (t.shelves c.on_map)) },
  record c { ahead = after; stale = true },
  true,
)

abbrev insert_row : Txn → Place → Bytes → Bytes → Option Bytes → Attempt (Txn × Place)
insert_row t c k v none = ok (put_and_seek t c k v)
insert_row t c k v (some w) = throw "MDBX_KEYEXIST"

abbrev update_row : Txn → Place → Bytes → Bytes → Option Row → Attempt (Txn × Place)
update_row t c k v none = throw "MDBX_ENODATA"
update_row t c k v (some r) =
    if bytes_eq r.key k then ok (put_and_seek t c k v) else throw "MDBX_EKEYMISMATCH"

abbrev from_key : Bytes → Bytes → Bool
from_key k j = not (bytes_lt j k)

abbrev pub memory : Mdbx
memory = record {
  Env = Shelves;
  Txn = Txn;
  Cursor = Place;
  start_read = λ e. record { shelves = e; can_write = false };
  start_write = λ e. record { shelves = e; can_write = true };
  commit = λ e t. if t.can_write then t.shelves else e;
  abort = λ e t. e;
  create_map = λ t name. (t, 0);
  open_cursor = λ t p. record { on_map = p; behind = []; ahead = []; stale = false };
  to_first = λ t c. (
    record { on_map = c.on_map; behind = []; ahead = held_at t c.on_map; stale = false },
    not (is_nil (held_at t c.on_map)),
  );
  to_next = λ t c. (forward c, not (is_nil (forward c).ahead));
  to_previous = λ t c. backward c;
  current = λ t c. first c.ahead;
  eof = λ t c. is_nil c.ahead;
  find = λ t c k. find_place t c k (lookup k (held_at t c.on_map));
  lower_bound = λ t c k. (
    place_at c.on_map (from_key k) (held_at t c.on_map),
    not (is_nil (place_at c.on_map (from_key k) (held_at t c.on_map)).ahead),
  );
  erase = λ t c. erase_first t c c.ahead;
  insert = λ t c k v. insert_row t c k v (lookup k (held_at t c.on_map));
  upsert = λ t c k v. ok (put_and_seek t c k v);
  update = λ t c k v. update_row t c k v (first c.ahead);
  put = λ t c k v. ((put_and_seek t c k v).0, (put_and_seek t c k v).1, true);
}

abbrev memory_view : View memory
memory_view = record { rows = held_at; place = λ t c. c; writable = λ t. t.can_write }

store_self : (f : Shelves) (p : ℕ) (s : Shelf) → store f p s p ≡ s
store_self f p s = ground arith

store_other : (f : Shelves) (p q : ℕ) (s : Shelf) → q ≢ p → store f p s q ≡ f q
store_other f p q s ne = ground arith

pub put-Written :
    (t : Txn) (c : Place) (k v : Bytes)
    → Written memory memory_view t c.on_map k v (put_and_seek t c k v)
unfolding put_shelf
put-Written t c k v = (
  ap (λ s. s.held) (store_self t.shelves c.on_map (put_shelf k v (t.shelves c.on_map))),
  refl,
  λ o ne.
      ap (λ s. s.held) (store_other t.shelves c.on_map o (put_shelf k v (t.shelves c.on_map)) ne),
  refl,
)

row_path : {k v : Bytes} (r : Row) → r.key ≡ k → r.value ≡ v → r ≡ record { key = k; value = v }
row_path r g h = λ i. record { key = g i; value = h i }

pub memory_erase :
    (t : Txn) (c : Place) (r : Row) (after : Rows)
    → c.ahead ≡ r ∷ after
    → held_at t c.on_map ≡ whole c
    → held_at (erase_first t c c.ahead).0 c.on_map ≡ joined c.behind after
unfolding erase_shelf erase_row
memory_erase t c r after e w =
    let full : held_at t c.on_map ≡ joined c.behind (r ∷ after) = w ∙ ap (joined c.behind) e in
    let below =
      (IsSorted-parts c.behind (r ∷ after) (subst IsSorted full (t.shelves c.on_map).sorted)).1 in
    ap (λ rs. held_at (erase_first t c rs).0 c.on_map) e
    ∙ ap (λ s. s.held) (store_self t.shelves c.on_map (erase_shelf r.key (t.shelves c.on_map)))
    ∙ ap (erase_row r.key) full
    ∙ erase_row-joined r.key c.behind (r ∷ after) after
        (All-map (λ q. Above q.key (r ∷ after)) (λ q. bytes_eq q.key r.key ≡ false)
          (λ q h. ne_of_lt q.key r.key h.0) c.behind below)
        (rw (bytes_eq_refl r.key) refl)

pub memory_others :
    (t : Txn) (c : Place) (r : Row) (after : Rows)
    → c.ahead ≡ r ∷ after
    → (p : ℕ) → p ≢ c.on_map
    → held_at (erase_first t c c.ahead).0 p ≡ held_at t p
memory_others t c r after e p ne =
    ap (λ rs. held_at (erase_first t c rs).0 p) e
    ∙ ap (λ s. s.held)
        (store_other t.shelves c.on_map p (erase_shelf r.key (t.shelves c.on_map)) ne)

pub memory_current :
    (t : Txn) (c : Place) (k v : Bytes)
    → first (place_at c.on_map (is_key k) (put_row k v (held_at t c.on_map))).ahead
      ≡ some (record { key = k; value = v })
memory_current t c k v =
    let rs = put_row k v (held_at t c.on_map) in
    let (r, after, f, g, h) =
      from_first-lookup k v rs (lookup-put_row k k v (held_at t c.on_map) ∙ rw (bytes_eq_refl k)) in
    ap first (seek-ahead (is_key k) [] rs ∙ f) ∙ ap some (row_path r g h)

abbrev pub memory_laws : Laws memory
memory_laws = record {
  stored = λ e p. (e p).held;
  view = memory_view;
  rows-IsSorted = λ t p. (t.shelves p).sorted;
  start_read-rows = λ e p. refl;
  start_write-rows = λ e p. refl;
  start_read-writable = λ e. refl;
  start_write-writable = λ e. refl;
  commit-write = λ e t p w. rw w refl;
  commit-read = λ e t p w. rw w refl;
  abort-stored = λ e t p. refl;
  create_map-rows = λ t name p. refl;
  create_map-writable = λ t name. refl;
  open-map = λ t p. refl;
  open-current = λ t p. refl;
  to_first-place = λ t c. refl;
  to_first-found = λ t c. refl;
  to_next-place = λ t c. refl;
  to_next-found = λ t c. refl;
  to_previous-row = λ t c r behind e s. backward-row c r behind e s;
  current-first = λ t c. refl;
  eof-nil = λ t c. refl;
  find-missing = λ t c k e. rw e refl;
  find-found = λ t c k v e. rw e (refl, refl);
  lower_bound-place = λ t c k. (refl, refl);
  erase-place = λ t c r after e s w. (
    ap (λ rs. (erase_first t c rs).1) e,
    memory_erase t c r after e w,
    memory_others t c r after e,
    ap (λ rs. (erase_first t c rs).0.can_write) e,
  );
  key_exists = "MDBX_KEYEXIST";
  no_data = "MDBX_ENODATA";
  insert-new = λ t c k v w e. (put_and_seek t c k v, rw e refl, put-Written t c k v);
  insert-old = λ t c k v w b e. rw e refl;
  upsert-put = λ t c k v b. (put_and_seek t c k v, refl, put-Written t c k v);
  update-current = λ t c k v w b e h.
      (put_and_seek t c k v, rw e (rw (bytes_eq_refl k) refl), put-Written t c k v);
  update-nowhere = λ t c k v b e. rw e refl;
  put-current = λ t c k v w b e h.
      (refl, (put-Written t c k v).0, memory_current t c k v, (put-Written t c k v).2, refl);
}
