-- ===== src/Processor/Consumer/Durable.antt =====
-- The acknowledgements of the consumer of server/processor/consumer.go against the rows in the three
-- tables.
use facto.Base.{
  Has, Has-append_left, Has-append_right, All-zip, ℕ, suc, ◌≡◌, refl, sym, ◌∙◌, subst, inl, inr,
  List, [], ◌∷◌, ◌++◌, map, Option, none, some, All, All-append, All-map_imp, true, false, length,
  append-nil,
}
use facto.Go.Text.{Bytes}
use facto.Go.Time.{Time}
use facto.Go.Sha.{Digest}
use facto.Go.Library.{Codec}
use facto.Processor.Event.{FactoEvent}
use facto.Processor.Merkle
use facto.Processor.Storage.{EventData, EventRow, SessionRow, event_row, session_row, process}
use facto.Processor.Storage.Batch.{
  Error, Database, RootOutcome, stored, not_stored, rows_from, store_merkle_root, insert_root,
  MerkleRow,
}
use facto.Processor.Storage.Complete.{Holds, Stored, store_batch-Stored}
use facto.Processor.Consumer.{
  Consumer, Msg, Reply, ack, nak, Environment, Input, Exit, reply_all, reject, accept, finish_batch,
  after_store, count_tree, select_loop, new_consumer,
}
use facto.Processor.Consumer.Loop.{Kept, select_loop-Kept}
use facto.Processor.Consumer.Invariant.{IsConsistent, IsConsistent-Kept, new_consumer-IsConsistent}

-- The tables only grow.
record Grows (db db' : Database) : Type 0 where
  more_events : List EventRow
  more_by_facto_id : List EventRow
  more_by_session : List SessionRow
  events_are : db'.events ≡ db.events ++ more_events
  by_facto_id_are : db'.by_facto_id ≡ db.by_facto_id ++ more_by_facto_id
  by_session_are : db'.by_session ≡ db.by_session ++ more_by_session

module _ (codec : Codec) where
  module _ {R : Type 0} (row : Time → EventData → R) (now : ℕ → Time) where
    abbrev RowOf : FactoEvent → List R → Type 0
    RowOf e rs = (t : Time) × Has (λ r. r ≡ row t (process codec e)) rs

    rows_from-RowOf :
        (n : ℕ) (es : List FactoEvent)
        → All (λ e. RowOf e (rows_from row now n (map (process codec) es))) es
    unfolding rows_from
    rows_from-RowOf n [] = tt
    rows_from-RowOf n (e ∷ es) = (
      (now n, inl refl),
      All-map_imp _ _ (λ f (t, h). (t, inr h)) es (rows_from-RowOf (suc n) es),
    )

  -- The event has a row in each of the three tables.
  pub record IsStored (db : Database) (e : FactoEvent) : Type 0 where
    pub time : Time
    pub in_events : Has (λ r. r ≡ event_row time (process codec e)) db.events
    pub time' : Time
    pub in_by_facto_id : Has (λ r. r ≡ event_row time' (process codec e)) db.by_facto_id
    pub time'' : Time
    pub in_by_session : Has (λ r. r ≡ session_row time'' (process codec e)) db.by_session

  IsStored-Grows :
      (db db' : Database) (e : FactoEvent) → Grows db db' → IsStored db e → IsStored db' e
  IsStored-Grows db db' e g s = record {
    time = s.time;
    in_events = rw g.events_are (Has-append_left _ db.events g.more_events s.in_events);
    time' = s.time';
    in_by_facto_id =
        rw g.by_facto_id_are (Has-append_left _ db.by_facto_id g.more_by_facto_id s.in_by_facto_id);
    time'' = s.time'';
    in_by_session =
        rw g.by_session_are (Has-append_left _ db.by_session g.more_by_session s.in_by_session);
  }

  module _ (now : ℕ → Time) (es : List FactoEvent) (db db' : Database) where
    Stored-Grows : (err : Option Error) → Stored codec now es db db' err → Grows db db'
    Stored-Grows err s = record {
      more_events = s.in_events.written;
      more_by_facto_id = s.in_by_facto_id.written;
      more_by_session = s.in_by_session.written;
      events_are = s.in_events.table_is;
      by_facto_id_are = s.in_by_facto_id.table_is;
      by_session_are = s.in_by_session.table_is;
    }

    Holds-RowOf :
        {R : Type 0} (row : Time → EventData → R) (old table : List R) (e : FactoEvent)
        → Holds old (rows_from row now 0 (map (process codec) es)) table none
        → RowOf row now e (rows_from row now 0 (map (process codec) es))
        → RowOf row now e table
    Holds-RowOf row old table e h (t, r) =
        (t, rw (h.table_is, h.complete refl) (Has-append_right _ old _ r))

    all_IsStored : Stored codec now es db db' none → All (IsStored db') es
    all_IsStored s =
        All-map_imp _ (IsStored db')
          (λ e (a, b, c).
            let (t, x) = Holds-RowOf event_row db.events db'.events e s.in_events a in
            let (u, y) =
              Holds-RowOf event_row db.by_facto_id db'.by_facto_id e s.in_by_facto_id b in
            let (v, z) = Holds-RowOf session_row db.by_session db'.by_session e s.in_by_session c in
            record {
              time = t;
              in_events = x;
              time' = u;
              in_by_facto_id = y;
              time'' = v;
              in_by_session = z;
            })
          es
          (All-zip _ _ _ es (rows_from-RowOf event_row now 0 es)
            (rows_from-RowOf event_row now 0 es) (rows_from-RowOf session_row now 0 es))

same-Grows :
    (db db' : Database)
    → db'.events ≡ db.events
    → db'.by_facto_id ≡ db.by_facto_id
    → db'.by_session ≡ db.by_session
    → Grows db db'
same-Grows db db' e f s = record {
  more_events = [];
  more_by_facto_id = [];
  more_by_session = [];
  events_are = e ∙ sym (append-nil db.events);
  by_facto_id_are = f ∙ sym (append-nil db.by_facto_id);
  by_session_are = s ∙ sym (append-nil db.by_session);
}

-- StoreMerkleRoot writes to none of the three tables.
insert_root-Grows :
    (o : RootOutcome) (row : MerkleRow) (db : Database) → Grows db (insert_root o row db).0
insert_root-Grows stored row db = same-Grows db _ refl refl refl
insert_root-Grows (not_stored e true) row db = same-Grows db _ refl refl refl
insert_root-Grows (not_stored e false) row db = same-Grows db _ refl refl refl

module _ (codec : Codec) (unmarshal : Bytes → Option FactoEvent) where
  abbrev DecodesTo : (FactoEvent → Type 0) → Msg → Type 0
  DecodesTo Q m = (e : FactoEvent) × (unmarshal m.payload ≡ some e) × Q e

  all-DecodesTo :
      (Q : FactoEvent → Type 0) (ms : List Msg) (es : List FactoEvent)
      → map (λ m. unmarshal m.payload) ms ≡ map (λ e. some e) es
      → All Q es
      → All (DecodesTo Q) ms
  all-DecodesTo Q [] es d q = tt
  all-DecodesTo Q (m ∷ ms) [] d q = absurd (cc d)
  all-DecodesTo Q (m ∷ ms) (e ∷ es) d q = ((e, cc d, q.0), all-DecodesTo Q ms es (cc d) q.1)

  -- A reply that is an acknowledgement has its event stored.
  abbrev pub IsBacked : Database → Msg × Reply → Type 0
  IsBacked db r =
      r.1 ≡ ack → (e : FactoEvent) × (unmarshal r.0.payload ≡ some e) × IsStored codec db e

  IsBacked-Grows :
      (db db' : Database) (rs : List (Msg × Reply))
      → Grows db db'
      → All (IsBacked db) rs
      → All (IsBacked db') rs
  IsBacked-Grows db db' rs g =
      All-map_imp (IsBacked db) (IsBacked db')
        (λ r h a. let (e, d, s) = h a in (e, d, IsStored-Grows codec db db' e g s)) rs

  acked-IsBacked :
      (db : Database) (ms : List Msg)
      → All (DecodesTo (IsStored codec db)) ms
      → All (IsBacked db) (reply_all ack ms)
  acked-IsBacked db [] h = tt
  acked-IsBacked db (m ∷ ms) h = ((λ a. h.0), acked-IsBacked db ms h.1)

  naked-IsBacked : (db : Database) (ms : List Msg) → All (IsBacked db) (reply_all nak ms)
  naked-IsBacked db [] = tt
  naked-IsBacked db (m ∷ ms) = ((λ a. absurd (cc a)), naked-IsBacked db ms)

  record IsSafe (received : List Msg) (c : Consumer) : Type 0 where
    consistent : IsConsistent unmarshal received c
    backed : All (IsBacked c.db) c.replies

  module _ (env : Environment) (root : Bytes) (db : Database) (c : Consumer) where
    abbrev after : Option Error → Consumer
    after err = finish_batch (length c.events) (after_store env root db err (count_tree c))

    after-IsBacked :
        (err : Option Error)
        → Stored codec env.now c.events c.db db err
        → map (λ m. unmarshal m.payload) c.messages ≡ map (λ e. some e) c.events
        → All (IsBacked c.db) c.replies
        → All (IsBacked (after err).db) (after err).replies
    unfolding finish_batch after_store store_merkle_root
    after-IsBacked (some e) s d h =
        All-append _ c.replies (reply_all nak c.messages)
          (IsBacked-Grows c.db db c.replies (Stored-Grows codec env.now c.events c.db db (some e) s)
            h)
          (naked-IsBacked db c.messages)
    after-IsBacked none s d h =
        let g = insert_root-Grows env.root_outcome _ db in
        let stored = all_IsStored codec env.now c.events c.db db s in
        All-append _ c.replies (reply_all ack c.messages)
          (IsBacked-Grows db _ c.replies g (
            IsBacked-Grows c.db db c.replies (Stored-Grows codec env.now c.events c.db db none s)
              h))
          (IsBacked-Grows db _ (reply_all ack c.messages) g (
            acked-IsBacked db c.messages
              (all-DecodesTo (IsStored codec db) c.messages c.events d stored)))

  module _ (sha256 : Digest) where
    IsSafe-Kept : Kept sha256 codec unmarshal IsSafe
    unfolding reject accept
    IsSafe-Kept =
        let k = IsConsistent-Kept unmarshal sha256 codec in
        record {
          on_flush = λ received env c c' x h. record {
            consistent = k.on_flush received env c c' x h.consistent;
            backed =
                subst (λ d. All (IsBacked d.db) d.replies) (sym x.result)
                  (after-IsBacked env (Merkle.root_hash x.heap x.tree) x.db c x.err
                    (store_batch-Stored codec env.now c.events c.db env.schedule x.db x.err
                      x.stored)
                    h.consistent.decoded h.backed);
          };
          on_reject = λ received m c d h. record {
            consistent = k.on_reject received m c d h.consistent;
            backed = All-append _ c.replies ((m, nak) ∷ []) h.backed ((λ a. absurd (cc a)), tt);
          };
          on_accept = λ received m e c d h. record {
            consistent = k.on_accept received m e c d h.consistent;
            backed = h.backed;
          };
        }

    new_consumer-IsSafe : (batch_size : ℕ) (db : Database) → IsSafe [] (new_consumer batch_size db)
    unfolding new_consumer
    new_consumer-IsSafe batch_size db = record {
      consistent = new_consumer-IsConsistent unmarshal sha256 codec batch_size db;
      backed = tt;
    }

    pub acked-IsStored :
        (batch_size : ℕ) (db : Database) (inputs : List Input) (c : Consumer) (e : Exit)
        → select_loop sha256 codec unmarshal inputs (new_consumer batch_size db) ≡ some (c, e)
        → All (IsBacked c.db) c.replies
    acked-IsStored batch_size db inputs c e h =
        (select_loop-Kept sha256 codec unmarshal IsSafe IsSafe-Kept [] inputs
          (new_consumer batch_size db) c e (new_consumer-IsSafe batch_size db) h).backed
