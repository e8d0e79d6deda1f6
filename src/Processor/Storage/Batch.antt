-- ===== src/Processor/Storage/Batch.antt =====
-- The statements of StoreBatch and StoreMerkleRoot of server/processor/storage.go against the database.
-- The environment chooses how each ExecuteBatch ends and in which order the goroutines take turns.
pub mod Chunks
use facto.Base.{
  ℕ, zero, suc, ◌+◌, ◌-◌, List, [], ◌∷◌, ◌++◌, map, Option, none, some, Bool, true, false, ltb,
  if◌then◌else◌, length, take, drop,
}
use facto.Go.Text.{Bytes}
use facto.Go.Time.{Time, truncate_day}
use facto.Go.Library.{Codec}
use facto.Processor.Event.{FactoEvent}
use facto.Processor.Storage.{
  EventData, EventRow, SessionRow, event_row, session_row, process, max_batch_size,
}

-- An error of the database, which the program only passes on.
abbrev pub Error : Type 0
Error = ℕ

-- How one ExecuteBatch ends. A batch that fails may have written some of its rows.
pub data Outcome : Type 0 where
  done : Outcome
  failed : Error → List Bool → Outcome

-- The rows of a table in the order of writing, and the batches that the table's goroutine has left.
pub record Writer (R : Type 0) : Type 0 where
  pub table : List R
  pub left : List (List R)

-- One goroutine's turn, by the table that it writes.
pub data Turn : Type 0 where
  events : Outcome → Turn
  by_facto_id : Outcome → Turn
  by_session : Outcome → Turn

pub record Group : Type 0 where
  pub events : Writer EventRow
  pub by_facto_id : Writer EventRow
  pub by_session : Writer SessionRow
  pub err : Option Error

pub record MerkleRow : Type 0 where
  pub date : Time
  pub bucket_time : Time
  pub root_hash : Bytes
  pub event_count : ℕ
  pub first_facto_id : Bytes
  pub last_facto_id : Bytes
  pub event_hashes : List Bytes
  pub created_at : Time

pub record Database : Type 0 where
  pub events : List EventRow
  pub by_facto_id : List EventRow
  pub by_session : List SessionRow
  pub merkle_roots : List MerkleRow

module _ {R : Type 0} (row : Time → EventData → R) (now : ℕ → Time) where
  -- The statements of one batch: event number `n` is written with the clock's reading `now n`.
  unfoldable pub rows_from : ℕ → List EventData → List R
  rows_from n [] = []
  rows_from n (e ∷ es) = row (now n) e ∷ rows_from (suc n) es

  -- `for i := 0; i < len(events); i += maxBatchSize`, with `end` cut at the length.
  unfoldable pub batches_from : ℕ → ℕ → List EventData → List (List R)
  unfolding rows_from
  batches_from zero i es = []
  batches_from (suc fuel) i es =
      let end = if ltb (length es) (i + max_batch_size) then length es else i + max_batch_size in
      let rest = batches_from fuel (i + max_batch_size) es in
      if ltb i (length es) then rows_from i (take (end - i) (drop i es)) ∷ rest else []

  unfoldable pub batches : List EventData → List (List R)
  batches es = batches_from (suc (length es)) 0 es

module _ (now : ℕ → Time) where
  -- The batches that storeEventsBatch, storeByFactoIDBatch and storeBySessionBatch execute in order.
  unfoldable pub store_events_batch : List EventData → List (List EventRow)
  store_events_batch = batches event_row now

  unfoldable pub store_by_facto_id_batch : List EventData → List (List EventRow)
  store_by_facto_id_batch = batches event_row now

  unfoldable pub store_by_session_batch : List EventData → List (List SessionRow)
  store_by_session_batch = batches session_row now

-- The rows that a failed batch has written.
abbrev pub select : {R : Type 0} → List Bool → List R → List R
select [] rows = []
select (keep ∷ keeps) [] = []
select (true ∷ keeps) (r ∷ rows) = r ∷ select keeps rows
select (false ∷ keeps) (r ∷ rows) = select keeps rows

-- `if err := s.session.ExecuteBatch(batch); err != nil { return err }`, for the next batch.
unfoldable pub execute : {R : Type 0} → Outcome → List R → List (List R) → Writer R × Option Error
execute o table [] = (record { table = table; left = [] }, none)
execute done table (batch ∷ left) = (record { table = table ++ batch; left = left }, none)
execute (failed e keep) table (batch ∷ left) =
    (record { table = table ++ select keep batch; left = [] }, some e)

-- The group keeps the first error.
abbrev pub first : Option Error → Option Error → Option Error
first none e = e
first (some e) _ = some e

unfoldable pub step : Turn → Group → Group
unfolding execute
step (events o) g =
    let (w, e) = execute o g.events.table g.events.left in
    record g { events = w; err = first g.err e }
step (by_facto_id o) g =
    let (w, e) = execute o g.by_facto_id.table g.by_facto_id.left in
    record g { by_facto_id = w; err = first g.err e }
step (by_session o) g =
    let (w, e) = execute o g.by_session.table g.by_session.left in
    record g { by_session = w; err = first g.err e }

unfoldable pub run : List Turn → Group → Group
unfolding step
run [] g = g
run (t ∷ ts) g = run ts (step t g)

-- `g.Wait()` returns when no goroutine has anything left; `none` means that it has not returned.
abbrev pub none_left : {R : Type 0} → List (List R) → Bool
none_left [] = true
none_left (b ∷ bs) = false

unfoldable pub wait : Group → Option (Option Error)
wait g =
    if none_left g.events.left
    then if none_left g.by_facto_id.left
      then if none_left g.by_session.left then some g.err else none
      else none
    else none

abbrev pub settle : Database → Group → Option (Option Error) → Option (Database × Option Error)
settle db g none = none
settle db g (some e) = some (
  record db {
    events = g.events.table;
    by_facto_id = g.by_facto_id.table;
    by_session = g.by_session.table;
  },
  e,
)

module _ (codec : Codec) where
  -- The group as StoreBatch starts it.
  unfoldable pub start : (ℕ → Time) → List FactoEvent → Database → Group
  unfolding store_events_batch store_by_facto_id_batch store_by_session_batch
  start now es db =
      let processed = map (process codec) es in
      record {
        events = record { table = db.events; left = store_events_batch now processed };
        by_facto_id = record {
          table = db.by_facto_id;
          left = store_by_facto_id_batch now processed;
        };
        by_session = record { table = db.by_session; left = store_by_session_batch now processed };
        err = none;
      }

  -- StoreBatch under a schedule; `none` means that the schedule ends before the call returns.
  unfoldable pub store_batch :
      List Turn → (ℕ → Time) → List FactoEvent → Database → Option (Database × Option Error)
  store_batch schedule now es db = let g = run schedule (start now es db) in settle db g (wait g)

-- How the INSERT into `merkle_roots` ends: an error may come after the row was written.
pub data RootOutcome : Type 0 where
  stored : RootOutcome
  not_stored : Error → Bool → RootOutcome

abbrev pub insert_root : RootOutcome → MerkleRow → Database → Database × Option Error
insert_root stored row db = (record db { merkle_roots = db.merkle_roots ++ row ∷ [] }, none)
insert_root (not_stored e true) row db =
    (record db { merkle_roots = db.merkle_roots ++ row ∷ [] }, some e)
insert_root (not_stored e false) row db = (db, some e)

unfoldable pub store_merkle_root :
    RootOutcome
    → Time
    → Time
    → Bytes
    → ℕ
    → Bytes
    → Bytes
    → List Bytes
    → Database
    → Database × Option Error
store_merkle_root outcome bucket_time now root_hash count first_id last_id hashes =
    insert_root outcome (record {
      date = truncate_day bucket_time;
      bucket_time = bucket_time;
      root_hash = root_hash;
      event_count = count;
      first_facto_id = first_id;
      last_facto_id = last_id;
      event_hashes = hashes;
      created_at = now;
    })
