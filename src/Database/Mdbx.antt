-- ===== src/Database/Mdbx.antt =====
-- What the database uses of libmdbx (`mdbx.h++`): the operations as a parameter, and the documented
-- behaviour of each as the fields of `Laws`. Keys and values have the sizes that libmdbx takes. Failures
-- of the machine (no memory, no disk) are left out: the operations here fail as the documentation says for keys and cursors.
use Prim.Native.String.{String}
use zatestil.Prelude.{
  ℕ, ◌≡◌, ◌≢◌, Bool, true, false, not, Option, none, some, [], ◌∷◌, Attempt, ok, throw, Bytes,
  bytes_lt,
}
use zatestil.Database.Rows.{
  Row, Rows, lookup, put_row, IsSorted, Place, is_nil, first, whole, forward, place_at, is_key,
  joined,
}

-- A `map_handle` is the number of its map.
pub record Mdbx : Type 1 where
  pub Env : Type 0  -- env_managed
  pub Txn : Type 0  -- txn_managed
  pub Cursor : Type 0  -- cursor_managed
  pub start_read : Env → Txn
  pub start_write : Env → Txn
  pub commit : Env → Txn → Env
  pub abort : Env → Txn → Env
  pub create_map : Txn → String → Txn × ℕ
  pub open_cursor : Txn → ℕ → Cursor
  pub to_first : Txn → Cursor → Cursor × Bool
  pub to_next : Txn → Cursor → Cursor × Bool
  pub to_previous : Txn → Cursor → Cursor × Bool
  pub current : Txn → Cursor → Option Row
  pub eof : Txn → Cursor → Bool
  pub find : Txn → Cursor → Bytes → Cursor × Bool
  pub lower_bound : Txn → Cursor → Bytes → Cursor × Bool
  pub erase : Txn → Cursor → Txn × Cursor × Bool
  pub insert : Txn → Cursor → Bytes → Bytes → Attempt (Txn × Cursor)
  pub upsert : Txn → Cursor → Bytes → Bytes → Attempt (Txn × Cursor)
  pub update : Txn → Cursor → Bytes → Bytes → Attempt (Txn × Cursor)
  pub put : Txn → Cursor → Bytes → Bytes → Txn × Cursor × Bool

-- What a transaction and a cursor show of a map.
pub record View (m : Mdbx) : Type 0 where
  pub rows : m.Txn → ℕ → Rows
  pub place : m.Txn → m.Cursor → Place
  pub writable : m.Txn → Bool

-- `q` is `t` with the row of `k` put into map `p`, and a cursor on that row.
abbrev pub Written : (m : Mdbx) → View m → m.Txn → ℕ → Bytes → Bytes → m.Txn × m.Cursor → Type 0
Written m view t p k v q =
    (view.rows q.0 p ≡ put_row k v (view.rows t p))
    × (view.place q.0 q.1 ≡ place_at p (is_key k) (put_row k v (view.rows t p)))
    × ((o : ℕ) → o ≢ p → view.rows q.0 o ≡ view.rows t o)
    × (view.writable q.0 ≡ view.writable t)

pub record Laws (m : Mdbx) : Type 0 where
  -- The rows of each map on disk, and as a transaction sees them.
  pub stored : m.Env → ℕ → Rows
  pub view : View m
  pub open view use *
  pub rows-IsSorted : (t : m.Txn) (p : ℕ) → IsSorted (rows t p)
  -- A transaction starts from what is on disk; a commit of a write makes its rows those on disk.
  pub start_read-rows : (e : m.Env) (p : ℕ) → rows (m.start_read e) p ≡ stored e p
  pub start_write-rows : (e : m.Env) (p : ℕ) → rows (m.start_write e) p ≡ stored e p
  pub start_read-writable : (e : m.Env) → writable (m.start_read e) ≡ false
  pub start_write-writable : (e : m.Env) → writable (m.start_write e) ≡ true
  pub commit-write :
      (e : m.Env) (t : m.Txn) (p : ℕ) → writable t ≡ true → stored (m.commit e t) p ≡ rows t p
  pub commit-read :
      (e : m.Env) (t : m.Txn) (p : ℕ) → writable t ≡ false → stored (m.commit e t) p ≡ stored e p
  pub abort-stored : (e : m.Env) (t : m.Txn) (p : ℕ) → stored (m.abort e t) p ≡ stored e p
  pub create_map-rows :
      (t : m.Txn) (name : String) (p : ℕ) → rows (m.create_map t name).0 p ≡ rows t p
  pub create_map-writable :
      (t : m.Txn) (name : String) → writable (m.create_map t name).0 ≡ writable t
  -- Cursors.
  pub open-map : (t : m.Txn) (p : ℕ) → (place t (m.open_cursor t p)).on_map ≡ p
  pub open-current : (t : m.Txn) (p : ℕ) → m.current t (m.open_cursor t p) ≡ none
  pub to_first-place :
      (t : m.Txn) (c : m.Cursor)
      → place t (m.to_first t c).0 ≡ record {
        on_map = (place t c).on_map;
        behind = [];
        ahead = rows t (place t c).on_map;
        stale = false;
      }
  pub to_first-found :
      (t : m.Txn) (c : m.Cursor) → (m.to_first t c).1 ≡ not (is_nil (rows t (place t c).on_map))
  pub to_next-place : (t : m.Txn) (c : m.Cursor) → place t (m.to_next t c).0 ≡ forward (place t c)
  pub to_next-found :
      (t : m.Txn) (c : m.Cursor) → (m.to_next t c).1 ≡ not (is_nil (forward (place t c)).ahead)
  -- Back onto the row before, where there is one.
  pub to_previous-row :
      (t : m.Txn) (c : m.Cursor) (r : Row) (behind : Rows)
      → (place t c).behind ≡ r ∷ behind
      → (place t c).stale ≡ false
      → ((m.to_previous t c).1 ≡ true)
        × (place t (m.to_previous t c).0
            ≡ record (place t c) { behind = behind; ahead = r ∷ (place t c).ahead })
  pub current-first : (t : m.Txn) (c : m.Cursor) → m.current t c ≡ first (place t c).ahead
  pub eof-nil : (t : m.Txn) (c : m.Cursor) → m.eof t c ≡ is_nil (place t c).ahead
  pub find-missing :
      (t : m.Txn) (c : m.Cursor) (k : Bytes)
      → lookup k (rows t (place t c).on_map) ≡ none
      → (m.find t c k).1 ≡ false
  pub find-found :
      (t : m.Txn) (c : m.Cursor) (k v : Bytes)
      → lookup k (rows t (place t c).on_map) ≡ some v
      → ((m.find t c k).1 ≡ true)
        × (place t (m.find t c k).0
            ≡ place_at (place t c).on_map (is_key k) (rows t (place t c).on_map))
  pub lower_bound-place :
      (t : m.Txn) (c : m.Cursor) (k : Bytes)
      → let p = place_at (place t c).on_map (λ j. not (bytes_lt j k)) (rows t (place t c).on_map) in
        ((m.lower_bound t c k).1 ≡ not (is_nil p.ahead)) × (place t (m.lower_bound t c k).0 ≡ p)
  pub erase-place :
      (t : m.Txn) (c : m.Cursor) (r : Row) (after : Rows)
      → (place t c).ahead ≡ r ∷ after
      → (place t c).stale ≡ false
      → rows t (place t c).on_map ≡ whole (place t c)
      → let t' = (m.erase t c).0 in
        (place t' (m.erase t c).1 ≡ record (place t c) { ahead = after; stale = true })
        × (rows t' (place t c).on_map ≡ joined (place t c).behind after)
        × ((p : ℕ) → p ≢ (place t c).on_map → rows t' p ≡ rows t p)
        × (writable t' ≡ writable t)
  -- Writes: the row is put, the cursor stands on it, and no other map changes.
  pub key_exists : String
  pub no_data : String
  pub insert-new :
      (t : m.Txn) (c : m.Cursor) (k v : Bytes)
      → writable t ≡ true
      → lookup k (rows t (place t c).on_map) ≡ none
      → (q : m.Txn × m.Cursor) × (m.insert t c k v ≡ ok q)
        × Written m view t (place t c).on_map k v q
  pub insert-old :
      (t : m.Txn) (c : m.Cursor) (k v w : Bytes)
      → writable t ≡ true
      → lookup k (rows t (place t c).on_map) ≡ some w
      → m.insert t c k v ≡ throw key_exists
  pub upsert-put :
      (t : m.Txn) (c : m.Cursor) (k v : Bytes)
      → writable t ≡ true
      → (q : m.Txn × m.Cursor) × (m.upsert t c k v ≡ ok q)
        × Written m view t (place t c).on_map k v q
  -- `update` is a put with `MDBX_CURRENT`: it replaces the row under the cursor, whose key has to be the
  -- one that is given, and a cursor that stands on no row has none to replace.
  pub update-current :
      (t : m.Txn) (c : m.Cursor) (k v w : Bytes)
      → writable t ≡ true
      → m.current t c ≡ some (record { key = k; value = w })
      → rows t (place t c).on_map ≡ whole (place t c)
      → (q : m.Txn × m.Cursor) × (m.update t c k v ≡ ok q)
        × Written m view t (place t c).on_map k v q
  pub update-nowhere :
      (t : m.Txn) (c : m.Cursor) (k v : Bytes)
      → writable t ≡ true
      → m.current t c ≡ none
      → m.update t c k v ≡ throw no_data
  -- A put at the key under the cursor replaces its value, and the cursor stays on that row.
  pub put-current :
      (t : m.Txn) (c : m.Cursor) (k v w : Bytes)
      → writable t ≡ true
      → m.current t c ≡ some (record { key = k; value = w })
      → rows t (place t c).on_map ≡ whole (place t c)
      → let (t', c', done) = m.put t c k v in
        (done ≡ true)
        × (rows t' (place t c).on_map ≡ put_row k v (rows t (place t c).on_map))
        × (m.current t' c' ≡ some (record { key = k; value = v }))
        × ((p : ℕ) → p ≢ (place t c).on_map → rows t' p ≡ rows t p)
        × (writable t' ≡ writable t)
