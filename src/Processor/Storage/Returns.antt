-- ===== src/Processor/Storage/Returns.antt =====
-- When StoreBatch of server/processor/storage.go returns, by the turns that its goroutines get.
use facto.Base.{
  ℕ, zero, suc, ◌+◌, ◌*◌, ◌/◌, ◌≤◌, ◌≡◌, refl, List, [], ◌∷◌, map, Option, none, some, true, arith,
  ap, length, length-map,
}
use facto.Go.Time.{Time}
use facto.Go.Library.{Codec}
use facto.Processor.Event.{FactoEvent}
use facto.Processor.Storage.{EventData, event_row, session_row, process, max_batch_size}
use facto.Processor.Storage.Batch.{
  Error, Outcome, done, failed, Turn, Group, Database, batches, batches_from, execute, step, run,
  wait, start, settle, store_batch, none_left, events, by_facto_id, by_session,
}

-- How many turns the goroutine of each table gets.
abbrev pub events_turns : List Turn → ℕ
events_turns [] = 0
events_turns (events o ∷ ts) = suc (events_turns ts)
events_turns (by_facto_id o ∷ ts) = events_turns ts
events_turns (by_session o ∷ ts) = events_turns ts

abbrev pub by_facto_id_turns : List Turn → ℕ
by_facto_id_turns [] = 0
by_facto_id_turns (events o ∷ ts) = by_facto_id_turns ts
by_facto_id_turns (by_facto_id o ∷ ts) = suc (by_facto_id_turns ts)
by_facto_id_turns (by_session o ∷ ts) = by_facto_id_turns ts

abbrev pub by_session_turns : List Turn → ℕ
by_session_turns [] = 0
by_session_turns (events o ∷ ts) = by_session_turns ts
by_session_turns (by_facto_id o ∷ ts) = by_session_turns ts
by_session_turns (by_session o ∷ ts) = suc (by_session_turns ts)

-- The outcome of a turn.
abbrev pub outcome : Turn → Outcome
outcome (events o) = o
outcome (by_facto_id o) = o
outcome (by_session o) = o

abbrev pub AllDone : List Turn → Type 0
AllDone [] = Unit {0}
AllDone (t ∷ ts) = (outcome t ≡ done) × AllDone ts

-- Each goroutine has at least so many turns left as it has batches.
record HasTurns (ts : List Turn) (g : Group) : Type 0 where
  for_events : length g.events.left ≤ events_turns ts
  for_by_facto_id : length g.by_facto_id.left ≤ by_facto_id_turns ts
  for_by_session : length g.by_session.left ≤ by_session_turns ts

execute_left :
    {R : Type 0} (o : Outcome) (table : List R) (left : List (List R)) (n : ℕ)
    → length left ≤ suc n
    → length (execute o table left).0.left ≤ n
unfolding execute
execute_left o table [] n h = omega arith
execute_left done table (b ∷ left) n h = omega arith
execute_left (failed e keep) table (b ∷ left) n h = omega arith

step-HasTurns :
    (t : Turn) (ts : List Turn) (g : Group) → HasTurns (t ∷ ts) g → HasTurns ts (step t g)
unfolding step
step-HasTurns (events o) ts g h = record {
  for_events = execute_left o g.events.table g.events.left _ h.for_events;
  for_by_facto_id = h.for_by_facto_id;
  for_by_session = h.for_by_session;
}
step-HasTurns (by_facto_id o) ts g h = record {
  for_events = h.for_events;
  for_by_facto_id = execute_left o g.by_facto_id.table g.by_facto_id.left _ h.for_by_facto_id;
  for_by_session = h.for_by_session;
}
step-HasTurns (by_session o) ts g h = record {
  for_events = h.for_events;
  for_by_facto_id = h.for_by_facto_id;
  for_by_session = execute_left o g.by_session.table g.by_session.left _ h.for_by_session;
}

nothing_left : {R : Type 0} (bs : List (List R)) → length bs ≤ 0 → none_left bs ≡ true
nothing_left [] h = refl
nothing_left (b ∷ bs) h = absurd (omega arith)

run_waits : (ts : List Turn) (g : Group) → HasTurns ts g → wait (run ts g) ≡ some (run ts g).err
unfolding run wait
run_waits [] g h = rw (
  nothing_left g.events.left h.for_events,
  nothing_left g.by_facto_id.left h.for_by_facto_id,
  nothing_left g.by_session.left h.for_by_session,
)
run_waits (t ∷ ts) g h = run_waits ts (step t g) (step-HasTurns t ts g h)

execute-done :
    {R : Type 0} (o : Outcome) (table : List R) (left : List (List R))
    → o ≡ done
    → (execute o table left).1 ≡ none
unfolding execute
execute-done o table [] h = refl
execute-done done table (b ∷ left) h = refl
execute-done (failed e keep) table (b ∷ left) h = absurd (cc h)

run_no_error : (ts : List Turn) (g : Group) → AllDone ts → g.err ≡ none → (run ts g).err ≡ none
unfolding run step
run_no_error [] g d e = e
run_no_error (events o ∷ ts) g d e =
    run_no_error ts _ d.1 (rw (e, execute-done o g.events.table g.events.left d.0))
run_no_error (by_facto_id o ∷ ts) g d e =
    run_no_error ts _ d.1 (rw (e, execute-done o g.by_facto_id.table g.by_facto_id.left d.0))
run_no_error (by_session o ∷ ts) g d e =
    run_no_error ts _ d.1 (rw (e, execute-done o g.by_session.table g.by_session.left d.0))

module _ {R : Type 0} (row : Time → EventData → R) (now : ℕ → Time) where
  length-batches_from :
      (fuel i k : ℕ) (es : List EventData)
      → length es ≤ i + k * 50
      → length (batches_from row now fuel i es) ≤ k
  unfolding batches_from
  length-batches_from zero i k es h = omega arith
  length-batches_from (suc fuel) i zero es h = ground arith
  length-batches_from (suc fuel) i (suc k) es h =
      ground (arith, length-batches_from fuel (i + max_batch_size) k es)

  length-batches : (es : List EventData) → length (batches row now es) ≤ (length es + 49) / 50
  unfolding batches
  length-batches es =
      length-batches_from (suc (length es)) 0 ((length es + 49) / 50) es (omega arith)

module _ (codec : Codec) where
  start_no_error :
      (now : ℕ → Time) (es : List FactoEvent) (db : Database) → (start codec now es db).err ≡ none
  unfolding start
  start_no_error now es db = refl

  start-HasTurns :
      (schedule : List Turn) (now : ℕ → Time) (es : List FactoEvent) (db : Database)
      → (length es + 49) / 50 ≤ events_turns schedule
      → (length es + 49) / 50 ≤ by_facto_id_turns schedule
      → (length es + 49) / 50 ≤ by_session_turns schedule
      → HasTurns schedule (start codec now es db)
  unfolding start
  start-HasTurns schedule now es db a b c =
      let n = length-map (process codec) es in
      let rows = length-batches event_row now (map (process codec) es) in
      let sessions = length-batches session_row now (map (process codec) es) in
      record {
        for_events = omega (arith, n, rows);
        for_by_facto_id = omega (arith, n, rows);
        for_by_session = omega (arith, n, sessions);
      }

  -- StoreBatch returns when the schedule gives each of the three goroutines a turn for every 50 events,
  -- and it returns no error if all those turns end well.
  pub store_batch_returns :
      (schedule : List Turn) (now : ℕ → Time) (es : List FactoEvent) (db : Database)
      → (length es + 49) / 50 ≤ events_turns schedule
      → (length es + 49) / 50 ≤ by_facto_id_turns schedule
      → (length es + 49) / 50 ≤ by_session_turns schedule
      → (db' : Database) × (err : Option Error) × (store_batch codec schedule now es db
          ≡ some (db', err))
        × (AllDone schedule → err ≡ none)
  unfolding store_batch
  store_batch_returns schedule now es db a b c =
      let g = start codec now es db in
      (
        _,
        (run schedule g).err,
        ap (settle db (run schedule g))
            (run_waits schedule g (start-HasTurns schedule now es db a b c)),
        λ d. run_no_error schedule g d (start_no_error now es db),
      )
