-- ===== src/Api/Handlers/Bounds.antt =====
-- What the handlers of server/api/handlers.go that read events answer.
use facto.Base.{
  ap, ltb, ◌≢◌, ◌↔◌, refl, false, [], length-take, Bool-cases, inl, inr, ltb→le, subst, ◌∷◌, ◌==◌,
  ℕ_discrete, ℕ, ◌≡◌, ◌≤◌, ◌<◌, List, Option, none, some, arith, length,
}
use facto.Base.Int.{ℤ, pos, negsuc}
use facto.Go.Text.{Bytes, codes}
use facto.Go.Time.{Time}
use facto.Go.Library.{Codec}
use facto.Processor.Storage.{EventRow, SessionRow}
use facto.Api.Event.{EventResponse}
use facto.Api.Storage.{
  Error, Rows, Single, row, not_found, query_failed, Result, ok, err, Page, paginate, get_events,
  get_session_events, single_event, event_of_row, get_event_by_facto_id,
}
use facto.Api.Storage.Pages.{get_events-next_cursor}
use facto.Api.Handlers.{
  Response, panicked, failure, success, handle_get_event, Bound, bound, refused, EventsQuery,
  limit_or_default, fetched, handle_get_events, handle_get_session_events, SessionEventsQuery,
  found_event,
}

pub limit_or_default_bounds : (l : ℤ) → (0 < limit_or_default l) × (limit_or_default l ≤ 1000)
unfolding limit_or_default
limit_or_default_bounds (pos n) = ground arith
limit_or_default_bounds (negsuc n) = (omega arith, omega arith)

fetched-success :
    {A : Type 0} (text : Bytes) (o : Result A) (a : A) → fetched text o ≡ success a → o ≡ ok a
fetched-success text (ok b) a h = cc h
fetched-success text (err e) a h = absurd (cc h)

module _ (codec : Codec) (parse : Bytes → Option Time)
    (query : Bytes → Time → Time → Time → ℕ → Rows EventRow) where
  parsed_page :
      (q : EventsQuery) (start last : Option Time) (events : List EventResponse)
      (next : Option Bytes)
      → elim start [
        | none ↦ failure 400 (codes "invalid start time format")
        | some s ↦ elim last [
          | none ↦ failure 400 (codes "invalid end time format")
          | some e ↦
              fetched
                (codes "failed to fetch events")
                (get_events codec query q.agent_id s e (limit_or_default q.limit) q.cursor)
        ]
      ]
        ≡ success (events, next)
      → (length events ≤ limit_or_default q.limit) × (next ≡ none)
  parsed_page q none last events next h = absurd (cc h)
  parsed_page q (some s) none events next h = absurd (cc h)
  parsed_page q (some s) (some e) events next h =
      get_events-next_cursor codec query q.agent_id s e (limit_or_default q.limit) q.cursor events
        next (limit_or_default_bounds q.limit).0 (fetched-success _ _ _ h)

  -- Whatever the request, a response of GetEvents with status 200 holds at most 1000 events, and never a
  -- next cursor.
  pub handle_get_events_bound :
      (request : Bound EventsQuery) (events : List EventResponse) (next : Option Bytes)
      → handle_get_events codec parse query request ≡ success (events, next)
      → (length events ≤ 1000) × (next ≡ none)
  unfolding handle_get_events
  handle_get_events_bound (refused text) events next h = absurd (cc h)
  handle_get_events_bound (bound q) events next h =
      let (l, n) = parsed_page q (parse q.start) (parse q.end) events next h in
      (omega (arith, l, (limit_or_default_bounds q.limit).1), n)

-- The status of a response, with 0 for a panic.
abbrev status : {A : Type 0} → Response A → ℕ
status (failure n text) = n
status (success a) = 200
status panicked = 0

length_cons : (b : ℕ) (bs : Bytes) → (length (b ∷ bs) == 0) ≡ false
length_cons b bs = ground arith

paginate-bound :
    (limit : ℕ) (events : List EventResponse) → length (paginate limit events).0 ≤ limit
unfolding paginate
paginate-bound limit events = elim (Bool-cases (ltb limit (length events))) [
  | inl t ↦ rw t (omega (arith, length-take limit events))
  | inr f ↦ rw f (ltb→le limit (length events) f)
]

closed_page :
    (limit : ℕ) (close : Option Error) (events : List EventResponse) (page : Page)
    → elim close [ some e ↦ err e | none ↦ ok (paginate limit events) ] ≡ ok page
    → length page.0 ≤ limit
closed_page limit (some e) events page h = absurd (cc h)
closed_page limit none events page h =
    let same : paginate limit events ≡ page = cc h in
    subst (λ (p : Page). length p.0 ≤ limit) same (paginate-bound limit events)

module _ (codec : Codec) where
  session_page :
      (query : Bytes → ℕ → Rows SessionRow) (session_id : Bytes) (limit : ℕ) (cursor : Bytes)
      (page : Page)
      → get_session_events codec query session_id limit cursor ≡ ok page
      → length page.0 ≤ limit
  unfolding get_session_events
  session_page query session_id limit cursor page h = closed_page limit _ _ page h

  -- Whatever the request and the database, a response of GetSessionEvents with status 200 is to a request
  -- that names a session, and holds at most 1000 events.
  pub handle_get_session_events_bound :
      (query : Bytes → ℕ → Rows SessionRow) (session_id : Bytes) (q : SessionEventsQuery)
      (page : Page)
      → handle_get_session_events codec query session_id q ≡ success page
      → (session_id ≢ []) × (length page.0 ≤ 1000)
  unfolding handle_get_session_events ℕ_discrete
  handle_get_session_events_bound query [] q page h = absurd (cc h)
  handle_get_session_events_bound query (b ∷ bs) q page h =
      let l =
        session_page query (b ∷ bs) (limit_or_default q.limit) q.cursor page
          (fetched-success (codes "failed to fetch events") _ page (rw (length_cons b bs) at h)) in
      (cc, omega (arith, l, (limit_or_default_bounds q.limit).1))

  -- What GetEventByFactoID answers, for an identifier that is not empty: the event exactly if the query
  -- yields its row, 404 exactly if there is none, and 500 exactly if the query fails.
  pub record IsAnswer (found : Single EventRow) (response : Response EventResponse) : Type 0 where
    pub ok_iff :
        (e : EventResponse)
        → (response ≡ success e) ↔ ((r : EventRow) × (found ≡ row r) × (e ≡ event_of_row codec r))
    pub missing_iff : (response ≡ failure 404 (codes "event not found")) ↔ (found ≡ not_found)
    pub failed_iff :
        (response ≡ failure 500 (codes "failed to fetch event"))
        ↔ ((e : Error) × (found ≡ query_failed e))

  single-IsAnswer :
      (found : Single EventRow) → IsAnswer found (found_event codec (single_event codec found))
  single-IsAnswer (row r) = record {
    ok_iff = λ e. ((λ h. (r, refl, cc h)), λ x. let (s, p, q) = x in cc (p, q));
    missing_iff = ((λ h. absurd (cc h)), λ h. absurd (cc h));
    failed_iff = ((λ h. absurd (cc h)), λ x. absurd (cc x.1));
  }
  single-IsAnswer not_found = record {
    ok_iff = λ e. ((λ h. absurd (cc h)), λ x. let (s, p, q) = x in absurd (cc p));
    missing_iff = ((λ h. refl), λ h. refl);
    failed_iff = ((λ h. absurd (omega (arith, ap status h))), λ x. absurd (cc x.1));
  }
  single-IsAnswer (query_failed x) = record {
    ok_iff = λ e. ((λ h. absurd (cc h)), λ y. let (s, p, q) = y in absurd (cc p));
    missing_iff = ((λ h. absurd (omega (arith, ap status h))), λ h. absurd (cc h));
    failed_iff = ((λ h. (x, refl)), λ y. refl);
  }

  -- For an identifier that is not empty, GetEventByFactoID answers with an event exactly if the query
  -- yields a row, and then with the row's event; with status 404 exactly if there is no row; and with
  -- status 500 exactly if the query fails.
  pub handle_get_event-IsAnswer :
      (query : Bytes → Single EventRow) (facto_id : Bytes)
      → facto_id ≢ []
      → IsAnswer (query facto_id) (handle_get_event codec query facto_id)
  unfolding handle_get_event get_event_by_facto_id
  handle_get_event-IsAnswer query [] h = absurd (h refl)
  handle_get_event-IsAnswer query (b ∷ bs) h =
      rw (length_cons b bs) (single-IsAnswer (query (b ∷ bs)))
