-- ===== src/Processor/Consumer/Origin.antt =====
-- Where the rows of events_by_facto_id come from that the consumer of server/processor/consumer.go writes.
use mathlib.Core.Logic.{∥∥₁_map, ∥∥₁_map₂}
use facto.Base.{
  Has, Has-append_left, Has-append_right, All-sublist, ℕ, suc, ◌≡◌, refl, sym, subst, inl, List, [],
  ◌∷◌, ◌++◌, map, Option, none, some, true, false, All, All-append, All-map_imp,
}
use facto.Go.Text.{Bytes}
use facto.Go.Time.{Time}
use facto.Go.Sha.{Digest}
use facto.Go.Library.{Codec}
use facto.Processor.Event.{FactoEvent}
use facto.Processor.Merkle
use facto.Processor.Storage.{EventRow, event_row, process}
use facto.Processor.Storage.Batch.{
  Error, Database, RootOutcome, MerkleRow, stored, not_stored, rows_from, store_merkle_root,
  insert_root,
}
use facto.Processor.Storage.Complete.{Holds, store_batch-Stored}
use facto.Processor.Consumer.{
  Consumer, Msg, Environment, Input, Exit, reject, accept, finish_batch, after_store, count_tree,
  select_loop, new_consumer,
}
use facto.Processor.Consumer.Loop.{Kept, select_loop-Kept, received_from}

module _ (unmarshal : Bytes → Option FactoEvent) (codec : Codec) where
  -- A received message decodes to the event.
  abbrev pub FromAny : List Msg → FactoEvent → Type 0
  FromAny received e = Has (λ m. unmarshal m.payload ≡ some e) received

  -- The row is that of an event from a received message.
  abbrev pub IsRowFrom : List Msg → EventRow → Type 0
  IsRowFrom received r =
      (e : FactoEvent) × FromAny received e × ((t : Time) × (r ≡ event_row t (process codec e)))

  record IsFrom (received : List Msg) (c : Consumer) : Type 0 where
    buffered : All (FromAny received) c.events
    rows : ∥ All (IsRowFrom received) c.db.by_facto_id ∥₁

  more-IsFrom :
      (received : List Msg) (m : Msg) (c : Consumer)
      → IsFrom received c
      → IsFrom (received ++ m ∷ []) c
  more-IsFrom received m c h = record {
    buffered = All-map_imp _ _ (λ e f. Has-append_left _ received (m ∷ []) f) c.events h.buffered;
    rows = ∥∥₁_map h.rows (λ a.
        All-map_imp (IsRowFrom received) (IsRowFrom (received ++ m ∷ []))
          (λ r (e, f, t). (e, Has-append_left _ received (m ∷ []) f, t)) c.db.by_facto_id a);
  }

  rows_from-IsRowFrom :
      (now : ℕ → Time) (received : List Msg) (n : ℕ) (es : List FactoEvent)
      → All (FromAny received) es
      → All (IsRowFrom received) (rows_from event_row now n (map (process codec) es))
  unfolding rows_from
  rows_from-IsRowFrom now received n [] h = tt
  rows_from-IsRowFrom now received n (e ∷ es) h =
      ((e, h.0, (now n, refl)), rows_from-IsRowFrom now received (suc n) es h.1)

  Holds-IsRowFrom :
      (received : List Msg) (old rows table : List EventRow) (err : Option Error)
      → Holds old rows table err
      → All (IsRowFrom received) rows
      → ∥ All (IsRowFrom received) old ∥₁
      → ∥ All (IsRowFrom received) table ∥₁
  Holds-IsRowFrom received old rows table err h new before = ∥∥₁_map₂ before h.part (λ a s.
      rw h.table_is
        (All-append _ old h.written a (All-sublist (IsRowFrom received) h.written rows s new)))

  insert_root-by_facto_id :
      (o : RootOutcome) (row : MerkleRow) (db : Database)
      → (insert_root o row db).0.by_facto_id ≡ db.by_facto_id
  insert_root-by_facto_id stored row db = refl
  insert_root-by_facto_id (not_stored e true) row db = refl
  insert_root-by_facto_id (not_stored e false) row db = refl

  after_store-by_facto_id :
      (env : Environment) (root : Bytes) (db : Database) (err : Option Error) (c : Consumer)
      → (after_store env root db err c).db.by_facto_id ≡ db.by_facto_id
  unfolding after_store store_merkle_root
  after_store-by_facto_id env root db (some e) c = refl
  after_store-by_facto_id env root db none c = insert_root-by_facto_id env.root_outcome _ db

  module _ (sha256 : Digest) where
    IsFrom-Kept : Kept sha256 codec unmarshal IsFrom
    unfolding reject accept finish_batch
    IsFrom-Kept = record {
      on_flush = λ received env c c' x h. subst (IsFrom received) (sym x.result) (record {
        buffered = tt;
        rows =
            rw
              (after_store-by_facto_id env (Merkle.root_hash x.heap x.tree) x.db x.err
                (count_tree c))
              (Holds-IsRowFrom received c.db.by_facto_id _ x.db.by_facto_id x.err
                (store_batch-Stored codec env.now c.events c.db env.schedule x.db x.err
                  x.stored).in_by_facto_id
                (rows_from-IsRowFrom env.now received 0 c.events h.buffered) h.rows);
      });
      on_reject = λ received m c d h.
          let k = more-IsFrom received m c h in record { buffered = k.buffered; rows = k.rows };
      on_accept = λ received m e c d h.
          let k = more-IsFrom received m c h in
          record {
            buffered =
                All-append _ c.events (e ∷ []) k.buffered
                  (Has-append_right _ received (m ∷ []) (inl d), tt);
            rows = k.rows;
          };
    }

    -- Every row of events_by_facto_id that a new consumer has written on an empty table is that of an event
    -- to which a message decodes that it has received.
    pub select_loop-IsRowFrom :
        (batch_size : ℕ) (db : Database) (inputs : List Input) (c : Consumer) (x : Exit)
        → db.by_facto_id ≡ []
        → select_loop sha256 codec unmarshal inputs (new_consumer batch_size db) ≡ some (c, x)
        → ∥ All (IsRowFrom (received_from inputs)) c.db.by_facto_id ∥₁
    unfolding new_consumer
    select_loop-IsRowFrom batch_size db inputs c x empty h =
        (select_loop-Kept sha256 codec unmarshal IsFrom IsFrom-Kept [] inputs
          (new_consumer batch_size db) c x (record { buffered = tt; rows = rw empty (∣ tt ∣₁) })
          h).rows
