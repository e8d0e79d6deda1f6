-- ===== src/Api/Storage/Pages.antt =====
-- The pages of GetEvents and GetSessionEvents of server/api/storage.go.
use Prim.Native.Nat.{min}
use facto.Base.{
  ℕ, zero, suc, ◌+◌, ◌-◌, ◌≤◌, ◌<◌, ◌≡◌, refl, List, [], ◌∷◌, ◌++◌, map, Option, none, some, arith,
  ◌∙◌, sym, ap, length, length-append, length-map, take, last_or, ltb, leb, if◌then◌else◌,
  Bool-cases, inl, inr, append_assoc, append-nil, ltb→lt, ltb→le, le→ltb, lt→ltb, take-length_le,
  length-take, leb→gt,
}
use facto.Go.Text.{Bytes}
use facto.Go.Time.{Time}
use facto.Go.Library.{Codec}
use facto.Go.Base64
use facto.Processor.Storage.{EventRow, SessionRow}
use facto.Api.Event.{EventResponse}
use facto.Api.Storage.{
  Error, Rows, Result, ok, err, paginate, scan_events, scan_dates, get_events, scan_session,
  get_session_events, page_of, event_of_row, event_of_session_row, get_date_range,
}

module _ (codec : Codec) where
  scan_events_bound :
      (limit : ℕ) (rs : List EventRow) (events : List EventResponse) (agent : Bytes)
      → length events < limit
      → length (scan_events codec limit rs events agent).0 ≤ limit
  unfolding scan_events
  scan_events_bound limit [] events agent h = omega arith
  scan_events_bound limit (r ∷ rs) events agent h =
      let n = length-append events (event_of_row codec r ∷ []) in
      elim (Bool-cases (leb limit (length (events ++ event_of_row codec r ∷ [])))) [
        | inl t ↦ rw t (omega (arith, n))
        | inr t ↦ rw t (
            scan_events_bound limit rs (events ++ event_of_row codec r ∷ []) r.agent_id
              (leb→gt _ _ t))
      ]

  -- One date of the loop.
  date_result :
      (limit : ℕ) (close : Option Error) (scanned : List EventResponse)
      (rest : Result (List EventResponse)) (result : List EventResponse)
      → length scanned ≤ limit
      → (length scanned < limit → rest ≡ ok result → length result ≤ limit)
      → elim close [
        | some e ↦ err e
        | none ↦ if leb limit (length scanned) then ok scanned else rest
      ]
        ≡ ok result
      → length result ≤ limit
  date_result limit (some x) scanned rest result b h e = absurd (cc e)
  date_result limit none scanned rest result b h e =
      elim (Bool-cases (leb limit (length scanned))) [
        | inl t ↦ let same : scanned ≡ result = cc (rw t at e) in omega (arith, ap length same)
        | inr t ↦ h (leb→gt _ _ t) (rw t at e)
      ]

  scan_dates_bound :
      (query : Bytes → Time → Rows EventRow) (limit : ℕ) (dates : List Time)
      (events : List EventResponse) (agent : Bytes) (result : List EventResponse)
      → length events < limit
      → scan_dates codec query limit dates events agent ≡ ok result
      → length result ≤ limit
  unfolding scan_dates
  scan_dates_bound query limit [] events agent result h e =
      let same : events ≡ result = cc e in omega (arith, ap length same)
  scan_dates_bound query limit (d ∷ dates) events agent result h e =
      let found = query agent d in
      let scanned = scan_events codec limit found.rows events agent in
      date_result limit found.close scanned.0
        (scan_dates codec query limit dates scanned.0 scanned.1) result
        (scan_events_bound limit found.rows events agent h)
        (λ l f. scan_dates_bound query limit dates scanned.0 scanned.1 result l f) e

  pub paginate-within :
      (limit : ℕ) (events : List EventResponse)
      → length events ≤ limit
      → paginate limit events ≡ (events, none)
  unfolding paginate
  paginate-within limit events h = rw (le→ltb limit (length events) h)

  page_of-within :
      (limit : ℕ) (found : Result (List EventResponse)) (events : List EventResponse)
      (next : Option Bytes)
      → ((result : List EventResponse) → found ≡ ok result → length result ≤ limit)
      → page_of limit found ≡ ok (events, next)
      → (length events ≤ limit) × (next ≡ none)
  page_of-within limit (err x) events next b e = absurd (cc e)
  page_of-within limit (ok result) events next b e =
      let same : (result, none) ≡ (events, next) =
        sym (paginate-within limit result (b result refl)) ∙ cc e in
      (omega (arith, b result refl, ap (λ p. length p.0) same), sym (ap (λ p. p.1) same))

  -- GetEvents with a positive limit never gives a next cursor, and at most as many events as the limit.
  pub get_events-next_cursor :
      (query : Bytes → Time → Time → Time → ℕ → Rows EventRow) (agent_id : Bytes)
      (start last : Time) (limit : ℕ) (cursor : Bytes) (events : List EventResponse)
      (next : Option Bytes)
      → 0 < limit
      → get_events codec query agent_id start last limit cursor ≡ ok (events, next)
      → (length events ≤ limit) × (next ≡ none)
  unfolding get_events
  get_events-next_cursor query agent_id start last limit cursor events next pos e =
      page_of-within limit _ events next
        (λ result f. scan_dates_bound _ limit (get_date_range start last) [] agent_id result pos f)
        e

  scan_session-take :
      (limit : ℕ) (rs : List SessionRow) (events : List EventResponse)
      → length events ≤ limit
      → scan_session codec limit rs events
        ≡ events ++ map (event_of_session_row codec) (take (suc (limit - length events)) rs)
  unfolding scan_session
  scan_session-take limit [] events h = sym (append-nil events)
  scan_session-take limit (r ∷ rs) events h =
      let next = event_of_session_row codec r ∷ [] in
      let n = length-append events next in
      elim (Bool-cases (ltb limit (length (events ++ next)))) [
        | inl t ↦
            let full : limit - length events ≡ 0 = omega (arith, n, ltb→lt _ _ t) in
            rw (t, full) refl
        | inr t ↦
            let more : limit - length events ≡ suc (limit - length (events ++ next)) =
              omega (arith, n, ltb→le _ _ t) in
            rw (t, more)
              (scan_session-take limit rs (events ++ next) (ltb→le _ _ t)
                ∙ append_assoc events next _)
      ]

  take-map-take :
      (limit : ℕ) (rows : List SessionRow)
      → take limit (map (event_of_session_row codec) (take (suc limit) rows))
        ≡ map (event_of_session_row codec) (take limit rows)
  take-map-take zero rows = refl
  take-map-take (suc limit) [] = refl
  take-map-take (suc limit) (r ∷ rows) =
      ap (λ l. event_of_session_row codec r ∷ l) (take-map-take limit rows)

  paginate-take :
      (limit : ℕ) (rows : List SessionRow)
      → let page = map (event_of_session_row codec) (take limit rows) in
        paginate limit (map (event_of_session_row codec) (take (suc limit) rows)) ≡ (
          page,
          (if ltb limit (length rows)
              then some (Base64.encode (last_or [] (map (λ e. e.facto_id) page)))
              else none),
        )
  unfolding paginate
  paginate-take limit rows =
      let ev = event_of_session_row codec in
      let n : length (map ev (take (suc limit) rows)) ≡ min (suc limit) (length rows) =
        length-map ev (take (suc limit) rows) ∙ length-take (suc limit) rows in
      elim (Bool-cases (ltb limit (length rows))) [
        | inl t ↦
            let over : limit < length (map ev (take (suc limit) rows)) =
              omega (arith, n, ltb→lt _ _ t) in
            rw (t, lt→ltb _ _ over, take-map-take limit rows) refl
        | inr t ↦
            let short = ltb→le _ _ t in
            let under : length (map ev (take (suc limit) rows)) ≤ limit = omega (arith, n, short) in
            let whole = take-length_le (suc limit) rows (omega (arith, short)) in
            rw (t, le→ltb _ _ under, whole, take-length_le limit rows short) refl
      ]

  pub get_session_events-page :
      (query : Bytes → ℕ → Rows SessionRow) (session_id : Bytes) (limit : ℕ) (cursor : Bytes)
      → (query session_id (limit + 1)).close ≡ none
      → let rows = (query session_id (limit + 1)).rows in
        let page = map (event_of_session_row codec) (take limit rows) in
        get_session_events codec query session_id limit cursor
        ≡ ok (
          page,
          (if ltb limit (length rows)
              then some (Base64.encode (last_or [] (map (λ e. e.facto_id) page)))
              else none),
        )
  unfolding get_session_events
  get_session_events-page query session_id limit cursor e =
      let rows = (query session_id (limit + 1)).rows in
      let ev = event_of_session_row codec in
      let all : limit - 0 ≡ limit = omega arith in
      rw (e, get_session_events)
        (ap (λ l. ok (paginate limit l)) (scan_session-take limit rows [] (omega arith))
          ∙ ap (λ k. ok (paginate limit (map ev (take (suc k) rows)))) all
          ∙ ap ok (paginate-take limit rows))
