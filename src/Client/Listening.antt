-- ===== src/Client/Listening.antt =====
-- source/message/Requester.cpp over source/websocket/client/Session.cpp: who
-- hears what was read.
use mathlib.Core.Path.{subst}
use mathlib.Core.Option.{some-injective}
use zatestil.Prelude.{
  ℕ, ◌≡◌, ◌≢◌, refl, sym, ap, ◌∙◌, some, List, [], ◌∷◌, ◌++◌, append_assoc, map, Bytes, false, ◌==◌,
  Bool-cases, inl, inr, ==_iff,
}
use zatestil.Serde.{Yas}
use zatestil.Message.{Message}
use zatestil.Message.Requester.{await_suspend}
use zatestil.Websocket.Handles.{Handles, find}
use zatestil.Websocket.Session as Wire
use zatestil.Websocket.Session.{
  Session, closed, failed, received, on_async_read, set_handle, unset_handle, start_read,
  open_session, run_write, send, close,
}
use zatestil.Websocket.Session.Hearing.{received_lem, set_handle_lem, unset_handle_lem}
use zatestil.Websocket.Session.Effects.{
  start_read-posted, open_session-handles, run_write-handles, on_async_read-handles,
}
use zatestil.Client.Composition.{Reach-Halves, constructed_lem}
use zatestil.Client.{
  Handler, of_requester, of_other, Client, joined, ask, Step, asks, fires, runs, opens, closes,
  reads_closed, reads_failed, reads_failed_open, reads_message, writes, sets, unsets, Reach, start,
  later,
}

-- A handle that is found is in the map, and its task is posted.
pub record Posted {H : Type 0} (id : ℕ) (h : H) (raw : Bytes) (tasks : List (ℕ × H × Bytes))
    : Type 0 where
  pub before : List (ℕ × H × Bytes)
  pub after : List (ℕ × H × Bytes)
  pub split : tasks ≡ before ++ (id, h, raw) ∷ after

module _ {H : Type 0} where
  pair_path : {a b : ℕ} {g h : H} → a ≡ b → g ≡ h → ◌≡◌ {A = ℕ × H} (a, g) (b, h)
  pair_path p q = λ i. (p i, q i)

  Posted-find :
      (id : ℕ) (h : H) (raw : Bytes) (m : Handles H)
      → find id m ≡ some h
      → Posted id h raw (map (λ q. (q.0, q.1, raw)) m)
  unfolding find
  Posted-find id h raw [] e = absurd (cc e)
  Posted-find id h raw ((j, g) ∷ m) e = elim (Bool-cases (j == id)) [
    | inl t ↦
        let at : find id ((j, g) ∷ m) ≡ some g = rw (t, find) refl in
        record {
          before = [];
          after = map (λ q. (q.0, q.1, raw)) m;
          split =
              ap (λ p. (p.0, p.1, raw) ∷ map (λ q. (q.0, q.1, raw)) m)
                (pair_path ((==_iff j id).0 t) (some-injective _ _ (sym at ∙ e)));
        }
    | inr f ↦
        let at : find id ((j, g) ∷ m) ≡ find id m = rw (f, find) refl in
        let rest = Posted-find id h raw m (sym at ∙ e) in
        record {
          before = (j, g, raw) ∷ rest.before;
          after = rest.after;
          split = ap (◌∷◌ (j, g, raw)) rest.split;
        }
  ]

  -- The tasks after a message was read, if a handle is there.
  pub received-Posted :
      (id : ℕ) (h : H) (raw : Bytes) (s : Session H)
      → find id s.handles ≡ some h
      → Posted id h raw (on_async_read (received raw) s).posted
  received-Posted id h raw s e =
      let new = Posted-find id h raw s.handles e in
      record {
        before = s.posted ++ new.before;
        after = new.after;
        split =
            ap (λ t. t.posted) (received_lem s raw)
            ∙ start_read-posted
                (record s { posted = s.posted ++ map (λ q. (q.0, q.1, raw)) s.handles })
            ∙ ap (λ l. s.posted ++ l) new.split
            ∙ sym (append_assoc s.posted new.before ((id, h, raw) ∷ new.after));
      }

-- While the session was not closed, the requester listens.
abbrev pub Listening : {yas : Yas Message} → Client yas → Type 0
Listening c = c.is_closed ≡ false → find c.handle_id c.wire.session.handles ≡ some of_requester

joined-Listening :
    (yas : Yas Message) (w : Wire.System Handler) → Wire.Reach w → Listening (joined yas w)
unfolding set_handle
joined-Listening yas w r o =
    (set_handle_lem r of_requester w.handle_id).1
    ∙ rw ((==_iff w.handle_id w.handle_id).1 refl) refl

module _ {yas : Yas Message} where
  -- Another handle is set or unset.
  sets-Listening :
      (c : Client yas) (n : ℕ)
      → Wire.Reach c.wire
      → Listening c
      → Listening (record c {
        wire = record c.wire {
          session = (set_handle (of_other n) c.wire.handle_id c.wire.session).2;
          handle_id = (set_handle (of_other n) c.wire.handle_id c.wire.session).1;
        };
      })
  unfolding set_handle
  sets-Listening c n r l o =
      let (new, found) = set_handle_lem r (of_other n) c.handle_id in
      elim (Bool-cases (c.wire.handle_id == c.handle_id)) [
        | inl t ↦
            let same = (==_iff c.wire.handle_id c.handle_id).0 t in absurd (cc (new, l o, same))
        | inr f ↦ found ∙ rw f (l o)
      ]

  unsets-Listening :
      (c : Client yas) (id : ℕ)
      → c.handle_id ≢ id
      → Wire.Reach c.wire
      → Listening c
      → Listening
          (record c { wire = record c.wire { session = (unset_handle id c.wire.session).1 } })
  unfolding unset_handle
  unsets-Listening c id other r l o =
      let (_, found) = unset_handle_lem r id c.handle_id in
      elim (Bool-cases (id == c.handle_id)) [
        | inl t ↦ absurd (other (sym ((==_iff id c.handle_id).0 t)))
        | inr f ↦ found ∙ rw f (l o)
      ]

module _ {yas : Yas Message} {Sent : Bytes → Type 0} where
  Step-Listening :
      {c d : Client yas} → Wire.Reach c.wire → Step yas Sent c d → Listening c → Listening d
  unfolding ask send close await_suspend
  Step-Listening {c = c} r (asks message) l o = l o
  Step-Listening {c = c} r (fires p small e) l o = l o
  Step-Listening {c = c} r (runs before after id h raw split e) l o = l o
  Step-Listening {c = c} r (opens connect ssl websocket e) l o =
      ap (find c.handle_id) (open_session-handles connect ssl websocket c.wire.session) ∙ l o
  Step-Listening {c = c} r (closes end) l o = absurd (cc o)
  Step-Listening {c = c} r (reads_closed e) l o =
      ap (find c.handle_id) (on_async_read-handles closed (Wire.ended c.wire.session false)) ∙ l o
  Step-Listening {c = c} r (reads_failed message e) l o =
      ap (find c.handle_id)
        (on_async_read-handles (failed message) (Wire.ended c.wire.session false))
      ∙ l o
  Step-Listening {c = c} r (reads_failed_open message e) l o =
      ap (find c.handle_id)
        (on_async_read-handles (failed message) (Wire.ended c.wire.session c.wire.session.is_open))
      ∙ l o
  Step-Listening {c = c} r (reads_message raw sent e) l o =
      ap (find c.handle_id)
        (on_async_read-handles (received raw) (Wire.ended c.wire.session c.wire.session.is_open))
      ∙ l o
  Step-Listening {c = c} r (writes end) l o =
      ap (find c.handle_id) (run_write-handles end c.wire.session) ∙ l o
  Step-Listening {c = c} r (sets n small) l o = sets-Listening c n r l o
  Step-Listening {c = c} r (unsets id other) l o = unsets-Listening c id other r l o

  pub Reach-Listening : {c : Client yas} → Reach yas Sent c → Listening c
  Reach-Listening {c = c} (start {w = w} config r quiet idle small e) =
      subst Listening (constructed_lem c w config e) (joined-Listening yas w r)
  Reach-Listening (later r s) = Step-Listening (Reach-Halves r).wire s (Reach-Listening r)
