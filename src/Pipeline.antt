-- ===== src/Pipeline.antt =====
-- From the queue to the API: what GetEventByFactoID of server/api/handlers.go answers for a message that the
-- consumer of server/processor/consumer.go has acknowledged.
pub mod Roots
pub mod Verdicts
pub mod Sessions
use mathlib.Core.Logic.{∥∥₁_map}
use facto.Base.{
  Has, Has-map_imp, All-Has, ℕ, ◌≡◌, ◌≢◌, refl, sym, ◌∙◌, ap, subst, List, [], ◌∷◌, Option, some,
  All, inl, inr,
}
use facto.Go.Text.{Bytes}
use facto.Go.Time.{Time}
use facto.Go.Sha.{Digest}
use facto.Go.Library.{Codec}
use facto.Processor.Event.{FactoEvent}
use facto.Processor.Storage.{EventRow, event_row, process}
use facto.Processor.Storage.Batch.{Database}
use facto.Processor.Consumer.{Msg, ack, Consumer, Input, Exit, select_loop, new_consumer}
use facto.Processor.Consumer.Loop.{received_from}
use facto.Processor.Consumer.Durable.{IsBacked, acked-IsStored}
use facto.Processor.Consumer.Origin.{FromAny, IsRowFrom, select_loop-IsRowFrom}
use facto.Processor.Fetching.{System, Reach}
use facto.Processor.Fetching.Refine.{Reach-select_loop}
use facto.Api.Storage.{Single, row, event_of_row}
use facto.Api.Storage.Stored.{RoundTrips, as_stored, stored_rows-events}
use facto.Api.Handlers.{success, handle_get_event}
use facto.Api.Handlers.Bounds.{handle_get_event-IsAnswer}

-- The row as its columns of times give it back.
abbrev pub read_back : (Time → Time) → EventRow → EventRow
read_back column r = record r {
  started_at = column r.started_at;
  completed_at = column r.completed_at;
}

-- What the SELECT from events_by_facto_id yields, whose primary key is the identifier: if rows were written
-- with it, one of those.
pub record Selects (column : Time → Time) (table : List EventRow) (query : Bytes → Single EventRow)
    : Type 0 where
  pub selected :
      (facto_id : Bytes)
      → Has (λ r. r.facto_id ≡ facto_id) table
      → (r : EventRow) × Has (λ s. s ≡ r) table
        × (r.facto_id ≡ facto_id)
        × (query facto_id ≡ row (read_back column r))

module _ (column : Time → Time) (codec : Codec) (unmarshal : Bytes → Option FactoEvent)
    (json : (payload : Bytes) (e : FactoEvent)
      → unmarshal payload ≡ some e
      → RoundTrips codec e) where
  -- The handler answers with an event of that identifier to which a received message decodes.
  abbrev pub Answers : List Msg → (Bytes → Single EventRow) → Bytes → Type 0
  Answers received query facto_id =
      (e : FactoEvent) × FromAny unmarshal codec received e
      × (e.facto_id ≡ facto_id)
      × (handle_get_event codec query facto_id ≡ success (as_stored column codec e))

  FromAny-RoundTrips :
      (received : List Msg) (e : FactoEvent)
      → FromAny unmarshal codec received e
      → RoundTrips codec e
  FromAny-RoundTrips [] e h = absurd h
  FromAny-RoundTrips (m ∷ ms) e (inl d) = json m.payload e d
  FromAny-RoundTrips (m ∷ ms) e (inr h) = FromAny-RoundTrips ms e h

  stored-Answers :
      (received : List Msg) (table : List EventRow) (query : Bytes → Single EventRow)
      (facto_id : Bytes)
      → facto_id ≢ []
      → Selects column table query
      → Has (λ r. r.facto_id ≡ facto_id) table
      → All (IsRowFrom unmarshal codec received) table
      → Answers received query facto_id
  unfolding event_row process
  stored-Answers received table query facto_id named sel has rows =
      let (r, member, same, yields) = sel.selected facto_id has in
      let (e, from, (t, made)) = All-Has (IsRowFrom unmarshal codec received) r table rows member in
      let stored = (stored_rows-events column codec e t (FromAny-RoundTrips received e from)).0 in
      let answer = handle_get_event-IsAnswer codec query facto_id named in
      (
        e,
        from,
        ap (λ s. s.facto_id) (sym made) ∙ same,
        (answer.ok_iff (as_stored column codec e)).1 (
          read_back column r,
          yields,
          sym stored ∙ ap (λ s. event_of_row codec (read_back column s)) (sym made),
        ),
      )

  module _ (sha256 : Digest) (n : ℕ) (db : Database) where
    run-Answers :
        (inputs : List Input) (c : Consumer) (x : Exit) (query : Bytes → Single EventRow)
        → db.by_facto_id ≡ []
        → select_loop sha256 codec unmarshal inputs (new_consumer n db) ≡ some (c, x)
        → Selects column c.db.by_facto_id query
        → (m : Msg) (e : FactoEvent) → Has (λ r. r ≡ (m, ack)) c.replies
        → unmarshal m.payload ≡ some e
        → e.facto_id ≢ []
        → ∥ Answers (received_from inputs) query e.facto_id ∥₁
    unfolding event_row process
    run-Answers inputs c x query empty run sel m e acked decodes named =
        let backed = acked-IsStored codec unmarshal sha256 n db inputs c x run in
        let (f, d, stored) =
          All-Has (IsBacked codec unmarshal c.db) (m, ack) c.replies backed acked refl in
        let same : f ≡ e = cc (d, decodes) in
        let has =
          Has-map_imp _ (λ r. r.facto_id ≡ e.facto_id)
            (λ r made. ap (λ s. s.facto_id) made ∙ ap (λ g. g.facto_id) same) c.db.by_facto_id
            stored.in_by_facto_id in
        ∥∥₁_map (select_loop-IsRowFrom unmarshal codec sha256 n db inputs c x empty run) (λ rows.
          stored-Answers (received_from inputs) c.db.by_facto_id query e.facto_id named sel has
            rows)

    -- However the goroutines of Start interleave, on a table of identifiers that was empty before: for a
    -- message that the consumer has acknowledged and an event to which it decodes, GetEventByFactoID
    -- answers a request for the event's identifier, if that is not empty, with status 200 and an event of
    -- that identifier, as the tables keep it, to which a received message decodes. This is if JSON gives
    -- the data of decoded events back, and if the SELECT yields a row that was written with the identifier.
    pub acked-Answers :
        {taken : List Input} {s : System} (query : Bytes → Single EventRow)
        → Reach sha256 codec unmarshal n db taken s
        → db.by_facto_id ≡ []
        → Selects column s.consumer.db.by_facto_id query
        → (m : Msg) (e : FactoEvent) → Has (λ r. r ≡ (m, ack)) s.consumer.replies
        → unmarshal m.payload ≡ some e
        → e.facto_id ≢ []
        → ∥ Answers (received_from taken) query e.facto_id ∥₁
    acked-Answers {taken} {s} query reached empty sel m e acked decodes named =
        run-Answers taken s.consumer s.main query empty
          (Reach-select_loop sha256 codec unmarshal n db reached) sel m e acked decodes named
