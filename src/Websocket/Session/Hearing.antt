-- ===== src/Websocket/Session/Hearing.antt =====
-- source/websocket/client/Session.cpp: who hears a message.
use zatestil.Prelude.{
  ℕ, ◌≡◌, sym, ◌∙◌, ap, none, some, List, [], ◌∷◌, ◌++◌, append_assoc, append-nil, map, Bytes, ◌==◌,
  if◌then◌else◌,
}
use zatestil.Util.Result.{is_ok}
use zatestil.Util.OnScopeExit.{scoped, make, destroy}
use zatestil.Websocket.Handles.{
  Handles, find, find-erase, is_found, erase-found, find-insert, find-Below,
}
use zatestil.Websocket.Session.{
  Session, received, start_read, set_handle, unset_handle, post_all, on_read, on_async_read, System,
  Reach,
}
use zatestil.Websocket.Session.Safety.{Reach-Inv}

module _ {H : Type 0} where
  post_all-map :
      (m : Handles H) (raw : Bytes) (posted : List (ℕ × H × Bytes))
      → post_all m raw posted ≡ posted ++ map (λ q. (q.0, q.1, raw)) m
  unfolding post_all
  post_all-map [] raw posted = sym (append-nil posted)
  post_all-map ((id, h) ∷ m) raw posted =
      post_all-map m raw (posted ++ (id, h, raw) ∷ [])
      ∙ append_assoc posted ((id, h, raw) ∷ []) (map (λ q. (q.0, q.1, raw)) m)

  -- `setHandle` yields an id that no handle of the session has, finds the new handle under it, and
  -- keeps the others, in every reachable state.
  pub set_handle_lem :
      {s : System H}
      → Reach s
      → (h : H) (l : ℕ)
      → let (id, counter, t) = set_handle h s.handle_id s.session in
        (find id s.session.handles ≡ none)
        × (find l t.handles ≡ (if id == l then some h else find l s.session.handles))
  unfolding set_handle
  set_handle_lem {s = s} r h l =
      let inv = Reach-Inv r in
      let new = find-Below s.handle_id s.session.handles inv.below in
      (new, find-insert s.handle_id l h s.session.handles inv.sorted new)

  -- In every reachable state, `unsetHandle` takes exactly the handle of that id away, and says
  -- whether there was one.
  pub unset_handle_lem :
      {s : System H}
      → Reach s
      → (id l : ℕ)
      → let (erased, t) = unset_handle id s.session in
        (erased ≡ is_found (find id s.session.handles))
        × (find l t.handles ≡ (if id == l then none else find l s.session.handles))
  unfolding unset_handle
  unset_handle_lem {s = s} r id l =
      (erase-found id s.session.handles, find-erase id l s.session.handles (Reach-Inv r).sorted)

  -- A message that was read is posted once for each handle, in the order of their ids, with its
  -- text, and the next read starts if the stream is open.
  pub received_lem :
      (s : Session H) (raw : Bytes)
      → on_async_read (received raw) s
        ≡ start_read (record s { posted = s.posted ++ map (λ q. (q.0, q.1, raw)) s.handles })
  unfolding on_async_read on_read scoped make destroy is_ok
  received_lem s raw =
      ap (λ p. start_read (record s { posted = p })) (post_all-map s.handles raw s.posted)
