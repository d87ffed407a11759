-- ===== src/Storage/Opening.antt =====
-- source/storage/Storage.cpp: a storage opens.
use Prim.Native.String.{String}
use text.Mathlib.Text.{◌==◌}
use zatestil.Prelude.{
  ℕ, ◌≡◌, refl, ap, ◌∙◌, Bool, true, false, some, if◌then◌else◌, Bool-cases, ◌⊎◌, inl, inr,
}
use text.Mathlib.TextEquality.{eq_iff}
use zatestil.Database.Id.{id_0, id_1}
use zatestil.Config.{Configuration, get, data_dir}
use zatestil.Database.Mdbx.{Mdbx, Laws}
use zatestil.Database.Operation.{open_table, next_operation_id}
use zatestil.Database.Operation.Lifecycle.{open_table_lem}
use zatestil.Storage.{
  Directories, create_directories, Storage, with_blocks, awaited, main_database, opened_at,
  open_storage,
}

-- What a storage has to be.
pub record IsReady {m : Mdbx} (laws : Laws m) (before : m.Env) (root : String) (s : Storage m)
    : Type 0 where
  pub at_root : s.root ≡ root
  pub free : (s.main.mutex.writer ≡ false) × (s.main.mutex.readers ≡ 0)
  pub kept : (p : ℕ) → laws.stored s.main.env p ≡ laws.stored before p

if-either : (b c : Bool) → c ≡ true → (if b then true else c) ≡ true
if-either true c h = refl
if-either false c h = h

made :
    (root : String) (there : Directories)
    → (there root ≡ true) ⊎ (there root ≡ false)
    → (if there root then there else create_directories root there) root ≡ true
made root there (inl e) = rw e e
made root there (inr e) = rw e (rw ((eq_iff root root).1 refl) refl)

stays :
    (root : String) (there : Directories)
    → (there root ≡ true) ⊎ (there root ≡ false)
    → (path : String) → there path ≡ true
    → (if there root then there else create_directories root there) path ≡ true
stays root there (inl e) path h = rw e h
stays root there (inr e) path h = rw e (if-either (path == root) (there path) h)

module _ {m : Mdbx} (laws : Laws m) (open_env : String → String → m.Env) where
  with_blocks-IsReady :
      (root : String) (number : ℕ)
      → (s : Storage m) × (with_blocks open_env root number
            (open_table number "blocks" (main_database open_env root))
          ≡ some s)
        × IsReady laws (open_env root "main") root s
  with_blocks-IsReady root number =
      let (db, opens, mutex, kept) =
        open_table_lem laws number "blocks" (main_database open_env root) refl refl in
      let (after, opens_too, mutex_too, kept_too) =
        open_table_lem laws (next_operation_id number) "accounts" db (ap (λ x. x.writer) mutex)
          (ap (λ x. x.readers) mutex) in
      (
        record {
          root = root;
          main = after;
          blocks = record {
            db = id_0;
            table = id_0;
            name = "blocks";
            handle = (m.create_map (m.start_write (open_env root "main")) "blocks").1;
          };
          accounts = record {
            db = id_0;
            table = id_1;
            name = "accounts";
            handle = (m.create_map (m.start_write db.env) "accounts").1;
          };
        },
        ap (with_blocks open_env root number) opens ∙ ap (awaited open_env root _) opens_too,
        record {
          at_root = refl;
          free = (ap (λ x. x.writer) (mutex_too ∙ mutex), ap (λ x. x.readers) (mutex_too ∙ mutex));
          kept = λ p. kept_too p ∙ kept p;
        },
      )

  -- By the laws of libmdbx, a storage whose configuration names a data directory opens: neither transaction
  -- waits for the other or throws, although the function is `noexcept`. Then the directory is there, the
  -- directories that were there still are, the database is not in use, and its tables have the rows that
  -- are on disk.
  pub open_storage-IsReady :
      (config : Configuration) (root : String) (number : ℕ) (there : Directories)
      → get config data_dir ≡ some root
      → (now : Directories) × (s : Storage m) × (open_storage open_env config number there
          ≡ some (now, some s))
        × (now root ≡ true)
        × ((path : String) → there path ≡ true → now path ≡ true)
        × IsReady laws (open_env root "main") root s
  unfolding open_storage
  open_storage-IsReady config root number there e =
      let (s, opened, ready) = with_blocks-IsReady root (next_operation_id number) in
      let now = if there root then there else create_directories root there in
      (
        now,
        s,
        ap (λ r. opened_at open_env r number there) e ∙ ap (λ o. some (now, o)) opened,
        made root there (Bool-cases (there root)),
        stays root there (Bool-cases (there root)),
        ready,
      )
