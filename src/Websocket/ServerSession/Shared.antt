-- ===== src/Websocket/ServerSession/Shared.antt =====
-- source/websocket/server/Session.cpp against source/websocket/client/Session.cpp: the operations that
-- both classes have.
use Prim.Native.String.{String}
use zatestil.Prelude.{
  ℕ, ◌≡◌, refl, ap, ◌∙◌, ◌+◌, Bool, true, false, Option, List, [], ◌∷◌, ◌++◌, Bytes, if◌then◌else◌,
}
use zatestil.Util.Result.{is_ok}
use zatestil.Util.OnScopeExit.{scoped, make, destroy}
use zatestil.Websocket.Handles.{Handles}
use zatestil.Websocket.Session as Client
use zatestil.Websocket.Session.{ReadEnd, closed, failed, received}
use zatestil.Websocket.ServerSession.{
  Session, start_read, post_all, on_read, on_async_read, set_handle, unset_handle, send, run_write,
  write_next,
}

if-map :
    {A B : Type 0} (f : A → B) (b : Bool) (x y : A)
    → f (if b then x else y) ≡ (if b then f x else f y)
if-map f true x y = refl
if-map f false x y = refl

abbrev pub on_set : {A B : Type 0} → (A → B) → ℕ × ℕ × A → ℕ × ℕ × B
on_set f (id, counter, a) = (id, counter, f a)

abbrev pub on_unset : {A B : Type 0} → (A → B) → Bool × A → Bool × B
on_unset f (erased, a) = (erased, f a)

module _ {H : Type 0} where
  -- What a session of the server is as a session of a client: it forgets how it was opened.
  abbrev pub as_client : Session H → Client.Session H
  as_client s = record {
    is_open = s.is_open;
    reading = s.reading;
    handles = s.handles;
    posted = s.posted;
    strand = s.strand;
    written = s.written;
  }

  post_all-as_client :
      (m : Handles H) (raw : Bytes) (posted : List (ℕ × H × Bytes))
      → post_all m raw posted ≡ Client.post_all m raw posted
  unfolding post_all Client.post_all
  post_all-as_client [] raw posted = refl
  post_all-as_client ((id, h) ∷ m) raw posted =
      post_all-as_client m raw (posted ++ (id, h, raw) ∷ [])

  start_read-as_client :
      (s : Session H) → as_client (start_read s) ≡ Client.start_read (as_client s)
  unfolding start_read Client.start_read
  start_read-as_client s = if-map as_client s.is_open (record s { reading = s.reading + 1 }) s

  on_async_read-as_client :
      (end : ReadEnd) (s : Session H)
      → as_client (on_async_read end s) ≡ Client.on_async_read end (as_client s)
  unfolding on_async_read on_read Client.on_async_read Client.on_read scoped make destroy is_ok
  on_async_read-as_client closed s = refl
  on_async_read-as_client (failed message) s = start_read-as_client s
  on_async_read-as_client (received raw) s =
      start_read-as_client (record s { posted = post_all s.handles raw s.posted })
      ∙ ap (λ p. Client.start_read (record (as_client s) { posted = p }))
          (post_all-as_client s.handles raw s.posted)

  write_next-as_client :
      (end : Option String) (s : Session H) (strand : List Bytes)
      → as_client (write_next end s strand) ≡ Client.write_next end (as_client s) strand
  write_next-as_client end s [] = refl
  write_next-as_client end s (d ∷ next) = refl

  -- A session of the server refines a session of a client: whatever its state, starting a
  -- read, the end of a read, `setHandle` and `unsetHandle` with their results, `send`, and a write on
  -- the strand, do to its stream, handles, tasks and writes what they do in a session of a client.
  pub shared_refines :
      (s : Session H) (end : ReadEnd) (h : H) (counter id : ℕ) (data' : Bytes)
      (write : Option String)
      → (as_client (start_read s) ≡ Client.start_read (as_client s))
        × (as_client (on_async_read end s) ≡ Client.on_async_read end (as_client s))
        × (on_set as_client (set_handle h counter s) ≡ Client.set_handle h counter (as_client s))
        × (on_unset as_client (unset_handle id s) ≡ Client.unset_handle id (as_client s))
        × (as_client (send data' s) ≡ Client.send data' (as_client s))
        × (as_client (run_write write s) ≡ Client.run_write write (as_client s))
  unfolding set_handle Client.set_handle unset_handle Client.unset_handle send Client.send run_write
      Client.run_write
  shared_refines s end h counter id data' write = (
    start_read-as_client s,
    on_async_read-as_client end s,
    refl,
    refl,
    refl,
    write_next-as_client write s s.strand,
  )
