-- ===== src/Websocket/Session/Effects.antt =====
-- source/websocket/client/Session.cpp: what the functions of a session leave of its handles and of the
-- tasks that it has posted.
use zatestil.Prelude.{
  ◌+◌, ◌≡◌, refl, Bool, true, false, if◌then◌else◌, Option, none, some, List, [], ◌∷◌, Bytes,
}
use Prim.Native.String.{String}
use zatestil.Util.Result.{is_ok}
use zatestil.Util.OnScopeExit.{scoped, make, destroy}
use zatestil.Websocket.Session.{
  Session, ReadEnd, closed, failed, received, on_async_read, on_read, start_read, open_session,
  run_write, write_next, post_all,
}

module _ {H : Type 0} where
  read-handles :
      (s : Session H) (b : Bool)
      → (if b then record s { reading = s.reading + 1 } else s).handles ≡ s.handles
  read-handles s true = refl
  read-handles s false = refl

  pub start_read-handles : (s : Session H) → (start_read s).handles ≡ s.handles
  unfolding start_read
  start_read-handles s = read-handles s s.is_open

  pub open_session-handles :
      (connect ssl websocket : Option String) (s : Session H)
      → (open_session connect ssl websocket s).1.handles ≡ s.handles
  unfolding open_session
  open_session-handles (some e) ssl websocket s = refl
  open_session-handles none (some e) websocket s = refl
  open_session-handles none none (some e) s = refl
  open_session-handles none none none s = start_read-handles (record s { is_open = true })

  write_next-handles :
      (end : Option String) (s : Session H) (strand : List Bytes)
      → (write_next end s strand).handles ≡ s.handles
  write_next-handles end s [] = refl
  write_next-handles end s (text ∷ next) = refl

  pub run_write-handles :
      (end : Option String) (s : Session H) → (run_write end s).handles ≡ s.handles
  unfolding run_write
  run_write-handles end s = write_next-handles end s s.strand

  pub on_async_read-handles :
      (end : ReadEnd) (s : Session H) → (on_async_read end s).handles ≡ s.handles
  unfolding on_async_read on_read scoped make destroy is_ok
  on_async_read-handles closed s = refl
  on_async_read-handles (failed message) s = start_read-handles s
  on_async_read-handles (received raw) s =
      start_read-handles (record s { posted = post_all s.handles raw s.posted })

  read-posted :
      (s : Session H) (b : Bool)
      → (if b then record s { reading = s.reading + 1 } else s).posted ≡ s.posted
  read-posted s true = refl
  read-posted s false = refl

  pub start_read-posted : (s : Session H) → (start_read s).posted ≡ s.posted
  unfolding start_read
  start_read-posted s = read-posted s s.is_open

  pub open_session-posted :
      (connect ssl websocket : Option String) (s : Session H)
      → (open_session connect ssl websocket s).1.posted ≡ s.posted
  unfolding open_session
  open_session-posted (some e) ssl websocket s = refl
  open_session-posted none (some e) websocket s = refl
  open_session-posted none none (some e) s = refl
  open_session-posted none none none s = start_read-posted (record s { is_open = true })

  write_next-posted :
      (end : Option String) (s : Session H) (strand : List Bytes)
      → (write_next end s strand).posted ≡ s.posted
  write_next-posted end s [] = refl
  write_next-posted end s (text ∷ next) = refl

  pub run_write-posted : (end : Option String) (s : Session H) → (run_write end s).posted ≡ s.posted
  unfolding run_write
  run_write-posted end s = write_next-posted end s s.strand

  pub failed-posted :
      (message : String) (s : Session H) → (on_async_read (failed message) s).posted ≡ s.posted
  unfolding on_async_read on_read scoped make destroy is_ok
  failed-posted message s = start_read-posted s

  pub closed-posted : (s : Session H) → (on_async_read closed s).posted ≡ s.posted
  unfolding on_async_read
  closed-posted s = refl
