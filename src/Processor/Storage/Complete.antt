-- ===== src/Processor/Storage/Complete.antt =====
-- StoreBatch of server/processor/storage.go under any schedule: what the tables hold when it returns.
use mathlib.Core.List.Sublist as Sublists
use mathlib.Core.List.{Sublist, nil-sublist}
use facto.Base.{
  ℕ, ◌≡◌, refl, ◌≢◌, List, [], ◌∷◌, ◌++◌, map, Option, none, some, true, false, Bool, arith, ◌∙◌,
  sym, ap, subst, concat, append_assoc, append-nil,
}
use facto.Go.Time.{Time}
use facto.Go.Library.{Codec}
use facto.Processor.Event.{FactoEvent}
use facto.Processor.Storage.{EventRow, SessionRow, event_row, session_row, process}
use facto.Processor.Storage.Batch.{
  Error, Outcome, done, failed, Writer, Turn, Group, Database, rows_from, select, execute, first,
  step, run, wait, start, settle, store_batch, none_left, events, by_facto_id, by_session,
}
use facto.Processor.Storage.Batch.Chunks.{batches-cover}

select-sublist : {R : Type 0} (keep : List Bool) (rows : List R) → Sublist (select keep rows) rows
select-sublist [] rows = nil-sublist rows
select-sublist (k ∷ keep) [] = nil-sublist []
select-sublist (true ∷ keep) (r ∷ rows) = Sublists.cons-cons r (select-sublist keep rows)
select-sublist (false ∷ keep) (r ∷ rows) = Sublists.cons r (select-sublist keep rows)

-- Of `rows`, the part `written` stands in the table behind `old`: all of it, unless there was an error.
pub record Holds {R : Type 0} (old rows table : List R) (err : Option Error) : Type 0 where
  pub written : List R
  pub table_is : table ≡ old ++ written
  pub part : Sublist written rows
  pub complete : err ≡ none → written ≡ rows

-- The same while the goroutine has batches left.
record Writes {R : Type 0} (old rows : List R) (w : Writer R) (err : Option Error) : Type 0 where
  written : List R
  table_is : w.table ≡ old ++ written
  part : Sublist (written ++ concat w.left) rows
  complete : err ≡ none → written ++ concat w.left ≡ rows

first-some : (err : Option Error) (x : Error) → first err (some x) ≢ none
first-some none x e = cc
first-some (some y) x e = cc

none_left-eq-nil : {R : Type 0} (bs : List (List R)) → none_left bs ≡ true → bs ≡ []
none_left-eq-nil [] e = refl
none_left-eq-nil (b ∷ bs) e = cc

module _ {R : Type 0} (old rows : List R) where
  -- A turn of another goroutine may bring an error, and takes nothing away.
  Writes-first :
      (w : Writer R) (err other : Option Error)
      → Writes old rows w err
      → Writes old rows w (first err other)
  Writes-first w none other h = record {
    written = h.written;
    table_is = h.table_is;
    part = h.part;
    complete = λ e. h.complete refl;
  }
  Writes-first w (some x) other h = h

  execute-Writes :
      (o : Outcome) (table : List R) (left : List (List R)) (err : Option Error)
      → Writes old rows (record { table = table; left = left }) err
      → Writes old rows (execute o table left).0 (first err (execute o table left).1)
  unfolding execute
  execute-Writes o table [] err h = Writes-first (record { table = table; left = [] }) err none h
  execute-Writes done table (b ∷ left) err h =
      Writes-first (record { table = table ++ b; left = left }) err none
        (record {
          written = h.written ++ b;
          table_is = ap (λ t. t ++ b) h.table_is ∙ append_assoc old h.written b;
          part = rw (append_assoc h.written b (concat left)) h.part;
          complete = λ e. append_assoc h.written b (concat left) ∙ h.complete e;
        })
  execute-Writes (failed x keep) table (b ∷ left) err h = record {
    written = h.written ++ select keep b;
    table_is = ap (λ t. t ++ select keep b) h.table_is ∙ append_assoc old h.written (select keep b);
    part =
        Sublists.trans
          (rw append_assoc (
            Sublists.append (Sublists.refl h.written)
              (Sublists.append (select-sublist keep b) (nil-sublist (concat left)))))
          h.part;
    complete = λ e. absurd (first-some err x e);
  }

  Writes-Holds :
      (w : Writer R) (err : Option Error)
      → Writes old rows w err
      → none_left w.left ≡ true
      → Holds old rows w.table err
  Writes-Holds w err h e =
      let nothing = ap concat (none_left-eq-nil w.left e) in
      let whole = ap (λ l. h.written ++ l) nothing ∙ append-nil h.written in
      record {
        written = h.written;
        table_is = h.table_is;
        part = subst (λ l. Sublist l rows) whole h.part;
        complete = λ e. sym whole ∙ h.complete e;
      }

  Writes-start :
      (left : List (List R))
      → concat left ≡ rows
      → Writes old rows (record { table = old; left = left }) none
  Writes-start left e = record {
    written = [];
    table_is = sym (append-nil old);
    part = subst (λ l. Sublist l rows) (sym e) (Sublists.refl rows);
    complete = λ _. e;
  }

module _ (db : Database) (rows : List EventRow) (sessions : List SessionRow) where
  record GroupWrites (g : Group) : Type 0 where
    on_events : Writes db.events rows g.events g.err
    on_by_facto_id : Writes db.by_facto_id rows g.by_facto_id g.err
    on_by_session : Writes db.by_session sessions g.by_session g.err

  step-GroupWrites : (t : Turn) (g : Group) → GroupWrites g → GroupWrites (step t g)
  unfolding step
  step-GroupWrites (events o) g h = record {
    on_events = execute-Writes db.events rows o g.events.table g.events.left g.err h.on_events;
    on_by_facto_id = Writes-first db.by_facto_id rows g.by_facto_id g.err _ h.on_by_facto_id;
    on_by_session = Writes-first db.by_session sessions g.by_session g.err _ h.on_by_session;
  }
  step-GroupWrites (by_facto_id o) g h = record {
    on_events = Writes-first db.events rows g.events g.err _ h.on_events;
    on_by_facto_id =
        execute-Writes db.by_facto_id rows o g.by_facto_id.table g.by_facto_id.left g.err
          h.on_by_facto_id;
    on_by_session = Writes-first db.by_session sessions g.by_session g.err _ h.on_by_session;
  }
  step-GroupWrites (by_session o) g h = record {
    on_events = Writes-first db.events rows g.events g.err _ h.on_events;
    on_by_facto_id = Writes-first db.by_facto_id rows g.by_facto_id g.err _ h.on_by_facto_id;
    on_by_session =
        execute-Writes db.by_session sessions o g.by_session.table g.by_session.left g.err
          h.on_by_session;
  }

  run-GroupWrites : (ts : List Turn) (g : Group) → GroupWrites g → GroupWrites (run ts g)
  unfolding run
  run-GroupWrites [] g h = h
  run-GroupWrites (t ∷ ts) g h = run-GroupWrites ts (step t g) (step-GroupWrites t g h)

wait-some :
    (g : Group) (e : Option Error)
    → wait g ≡ some e
    → (none_left g.events.left ≡ true)
      × (none_left g.by_facto_id.left ≡ true)
      × (none_left g.by_session.left ≡ true)
      × (e ≡ g.err)
unfolding wait
wait-some g e h = ground arith

settle-some :
    (db : Database) (g : Group) (w : Option (Option Error)) (db' : Database) (err : Option Error)
    → settle db g w ≡ some (db', err)
    → (w ≡ some err)
      × (db'.events ≡ g.events.table)
      × (db'.by_facto_id ≡ g.by_facto_id.table)
      × (db'.by_session ≡ g.by_session.table)
      × (db'.merkle_roots ≡ db.merkle_roots)
settle-some db g none db' err h = absurd (cc h)
settle-some db g (some e) db' err h = ground arith

-- What the three tables hold when StoreBatch returns `err` for the events `es`.
pub record Stored (codec : Codec) (now : ℕ → Time) (es : List FactoEvent) (db db' : Database)
    (err : Option Error) : Type 0 where
  pub in_events :
      Holds db.events (rows_from event_row now 0 (map (process codec) es)) db'.events err
  pub in_by_facto_id :
      Holds db.by_facto_id (rows_from event_row now 0 (map (process codec) es)) db'.by_facto_id err
  pub in_by_session :
      Holds db.by_session (rows_from session_row now 0 (map (process codec) es)) db'.by_session err
  pub roots_kept : db'.merkle_roots ≡ db.merkle_roots

module _ (codec : Codec) (now : ℕ → Time) (es : List FactoEvent) (db : Database) where
  abbrev rows : List EventRow
  rows = rows_from event_row now 0 (map (process codec) es)

  abbrev sessions : List SessionRow
  sessions = rows_from session_row now 0 (map (process codec) es)

  start-GroupWrites : GroupWrites db rows sessions (start codec now es db)
  unfolding start
  start-GroupWrites =
      let processed = map (process codec) es in
      record {
        on_events = Writes-start db.events rows _ (batches-cover event_row now processed).0;
        on_by_facto_id =
            Writes-start db.by_facto_id rows _ (batches-cover event_row now processed).0;
        on_by_session =
            Writes-start db.by_session sessions _ (batches-cover session_row now processed).0;
      }

  pub store_batch-Stored :
      (schedule : List Turn) (db' : Database) (err : Option Error)
      → store_batch codec schedule now es db ≡ some (db', err)
      → Stored codec now es db db' err
  unfolding store_batch
  store_batch-Stored schedule db' err h =
      let g = run schedule (start codec now es db) in
      let (returned, te, tf, ts, tm) = settle-some db g (wait g) db' err h in
      let (le, lf, ls, same) = wait-some g err returned in
      let w = run-GroupWrites db rows sessions schedule (start codec now es db) start-GroupWrites in
      record {
        in_events = rw (te, same) (Writes-Holds db.events rows g.events g.err w.on_events le);
        in_by_facto_id =
            rw (tf, same)
              (Writes-Holds db.by_facto_id rows g.by_facto_id g.err w.on_by_facto_id lf);
        in_by_session =
            rw (ts, same)
              (Writes-Holds db.by_session sessions g.by_session g.err w.on_by_session ls);
        roots_kept = tm;
      }
