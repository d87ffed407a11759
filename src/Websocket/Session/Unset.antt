-- ===== src/Websocket/Session/Unset.antt =====
-- source/websocket/client/Session.cpp: what a handle may still hear after `unsetHandle`.
use mathlib.Core.Path.{subst}
use zatestil.Prelude.{
  ℕ, false, ◌+◌, ◌<◌, ◌≤◌, ◌≡◌, ◌^◌, refl, sym, ap, ◌∙◌, none, some, List, [], ◌∷◌, ◌++◌, map,
  arith, Bytes, ◌==◌, if◌then◌else◌, Bool-cases, inl, inr, ==_iff,
}
use zatestil.Websocket.Handles.{Handles, find, Below}
use zatestil.Websocket.Session.{
  Session, System, Step, opens, closes, reads_closed, reads_failed, reads_failed_open,
  reads_message, sends, writes, sets, unsets, runs, Reach, later, closed, failed, received, ended,
  on_async_read, set_handle, unset_handle, send, close,
}
use zatestil.Websocket.Session.Effects.{
  start_read-posted, open_session-handles, open_session-posted, run_write-handles, run_write-posted,
  on_async_read-handles, failed-posted, closed-posted,
}
use zatestil.Websocket.Session.Safety.{next_counter, Reach-Inv}
use zatestil.Websocket.Session.Hearing.{received_lem, set_handle_lem, unset_handle_lem}

module _ {H : Type 0} where
  -- How many posted tasks call the handle of an id.
  pub pending : ℕ → List (ℕ × H × Bytes) → ℕ
  pending id [] = 0
  pending id ((j, h, raw) ∷ tasks) = if j == id then pending id tasks + 1 else pending id tasks

  pending-append :
      (id : ℕ) (xs ys : List (ℕ × H × Bytes))
      → pending id (xs ++ ys) ≡ pending id xs + pending id ys
  unfolding pending
  pending-append id [] ys = omega arith
  pending-append id ((j, h, raw) ∷ xs) ys = ground (arith, pending-append id xs ys)

  pending-map :
      (id : ℕ) (raw : Bytes) (m : Handles H)
      → find id m ≡ none
      → pending id (map (λ q. (q.0, q.1, raw)) m) ≡ 0
  unfolding pending find
  pending-map id raw [] e = refl
  pending-map id raw ((j, h) ∷ m) e = ground (arith, pending-map id raw m)

  pending-run :
      (id : ℕ) (before : List (ℕ × H × Bytes)) (task : ℕ × H × Bytes) (after : List (ℕ × H × Bytes))
      → pending id (before ++ after) ≤ pending id (before ++ task ∷ after)
  unfolding pending
  pending-run id before (j, h, raw) after =
      ground (arith, pending-append id before after, pending-append id before ((j, h, raw) ∷ after))

  -- An id that was given out and has no handle, with at most `n` tasks.
  record Deaf (id n : ℕ) (s : System H) : Type 0 where
    given : id < s.handle_id
    gone : find id s.session.handles ≡ none
    few : pending id s.session.posted ≤ n

  find-lt : (n k : ℕ) (h : H) (m : Handles H) → Below n m → find k m ≡ some h → k < n
  unfolding find
  find-lt n k h [] b e = absurd (cc e)
  find-lt n k h ((j, g) ∷ m) b e = ground (arith, find-lt n k h m b.1)

  -- The steps from one state to another.
  pub data Runs (s : System H) : System H → Type 0 where
    here : Runs s s
    onward : {u v : System H} → Runs s u → Step u v → Runs s v

  pub Runs-Reach : {s u : System H} → Reach s → Runs s u → Reach u
  Runs-Reach r here = r
  Runs-Reach r (onward p st) = later (Runs-Reach r p) st

  module _ (id n : ℕ) where
    keeps-Deaf :
        (s : System H) (t : Session H) (called : zatestil.Prelude.Bool) (log : List Bytes)
        → t.handles ≡ s.session.handles
        → t.posted ≡ s.session.posted
        → Deaf id n s
        → Deaf id n (record s { session = t; called = called; log = log })
    keeps-Deaf s t called log e f d = record {
      given = d.given;
      gone = ap (find id) e ∙ d.gone;
      few = subst (λ p. pending id p ≤ n) (sym f) d.few;
    }

    received-Deaf :
        (s : System H) (raw : Bytes) (b : zatestil.Prelude.Bool)
        → Deaf id n s
        → Deaf id n (record s { session = on_async_read (received raw) (ended s.session b) })
    received-Deaf s raw b d =
        let tasks = map (λ q. (q.0, q.1, raw)) s.session.handles in
        let posted : (on_async_read (received raw) (ended s.session b)).posted
            ≡ s.session.posted ++ tasks =
          ap (λ t. t.posted) (received_lem (ended s.session b) raw) ∙ start_read-posted _ in
        let same : pending id (s.session.posted ++ tasks) ≡ pending id s.session.posted = omega (
          arith,
          pending-append id s.session.posted tasks,
          pending-map id raw s.session.handles d.gone,
        ) in
        record {
          given = d.given;
          gone = ap (find id) (on_async_read-handles (received raw) (ended s.session b)) ∙ d.gone;
          few = subst (λ k. k ≤ n) (sym (ap (pending id) posted ∙ same)) d.few;
        }

    sets-Deaf :
        (s : System H) (h : H)
        → Reach s
        → s.handle_id + 1 < 2 ^ 64
        → Deaf id n s
        → Deaf id n (record s {
          session = (set_handle h s.handle_id s.session).2;
          handle_id = (set_handle h s.handle_id s.session).1;
        })
    unfolding set_handle
    sets-Deaf s h r small d =
        let (new, found) = set_handle_lem r h id in
        record {
          given =
              subst (λ k. id < k) (sym (next_counter s.handle_id small)) (omega (arith, d.given));
          gone = elim (Bool-cases (s.handle_id == id)) [
            | inl t ↦
                let same = (==_iff s.handle_id id).0 t in absurd (omega (arith, d.given, same))
            | inr f ↦ found ∙ rw f d.gone
          ];
          few = d.few;
        }

    unsets-Deaf :
        (s : System H) (l : ℕ)
        → Reach s
        → Deaf id n s
        → Deaf id n (record s { session = (unset_handle l s.session).1 })
    unfolding unset_handle
    unsets-Deaf s l r d =
        let (_, found) = unset_handle_lem r l id in
        record {
          given = d.given;
          gone = elim (Bool-cases (l == id)) [
            | inl t ↦ found ∙ rw t refl
            | inr f ↦ found ∙ rw f d.gone
          ];
          few = d.few;
        }

    Step-Deaf : {s u : System H} → Reach s → Step s u → Deaf id n s → Deaf id n u
    unfolding send close find
    Step-Deaf {s = s} r (opens connect ssl websocket e) d =
        keeps-Deaf s _ _ _ (open_session-handles connect ssl websocket s.session)
          (open_session-posted connect ssl websocket s.session) d
    Step-Deaf r (closes end) d = record { given = d.given; gone = refl; few = d.few }
    Step-Deaf {s = s} r (reads_closed e) d =
        keeps-Deaf s _ _ _ (on_async_read-handles closed (ended s.session false))
          (closed-posted (ended s.session false)) d
    Step-Deaf {s = s} r (reads_failed message e) d =
        keeps-Deaf s _ _ _ (on_async_read-handles (failed message) (ended s.session false))
          (failed-posted message (ended s.session false)) d
    Step-Deaf {s = s} r (reads_failed_open message e) d =
        keeps-Deaf s _ _ _
          (on_async_read-handles (failed message) (ended s.session s.session.is_open))
          (failed-posted message (ended s.session s.session.is_open)) d
    Step-Deaf {s = s} r (reads_message raw e) d = received-Deaf s raw s.session.is_open d
    Step-Deaf {s = s} r (sends text) d = keeps-Deaf s _ _ _ refl refl d
    Step-Deaf {s = s} r (writes end) d =
        keeps-Deaf s _ _ _ (run_write-handles end s.session) (run_write-posted end s.session) d
    Step-Deaf {s = s} r (sets h small) d = sets-Deaf s h r small d
    Step-Deaf {s = s} r (unsets l) d = unsets-Deaf s l r d
    Step-Deaf {s = s} r (runs before after task e) d = record {
      given = d.given;
      gone = d.gone;
      few = omega (arith, d.few, pending-run id before task after, ap (pending id) e);
    }

  Runs-Deaf : (id n : ℕ) {s u : System H} → Reach s → Runs s u → Deaf id n s → Deaf id n u
  Runs-Deaf id n r here d = d
  Runs-Deaf id n r (onward p st) d = Step-Deaf id n (Runs-Reach r p) st (Runs-Deaf id n r p d)

  -- From `unsetHandle` on, the handle is called only by the tasks that were posted before, in whatever order things
  -- happen: nothing posts another, and no later handle gets its id.
  pub unset_deaf :
      (id : ℕ) (h : H) {s u : System H}
      → Reach s
      → find id s.session.handles ≡ some h
      → Runs (record s { session = (unset_handle id s.session).1 }) u
      → (find id u.session.handles ≡ none)
        × (pending id u.session.posted ≤ pending id s.session.posted)
  unfolding unset_handle
  unset_deaf id h {s} {u} r e p =
      let (_, found) = unset_handle_lem r id id in
      let d = Runs-Deaf id (pending id s.session.posted) (later r (unsets id)) p (record {
        given = find-lt s.handle_id id h s.session.handles (Reach-Inv r).below e;
        gone = found ∙ rw ((==_iff id id).1 refl) refl;
        few = omega arith;
      }) in
      (d.gone, d.few)
