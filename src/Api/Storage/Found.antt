-- ===== src/Api/Storage/Found.antt =====
-- The events that GetEvents of server/api/storage.go finds, in terms of the rows of the dates.
use facto.Base.{
  ℕ, zero, suc, ◌+◌, ◌-◌, ◌<◌, ◌≡◌, refl, List, [], ◌∷◌, ◌++◌, map, none, true, false, arith, ◌∙◌,
  sym, ap, All, concat, length, length-append, length-map, length-take, take, leb, if◌then◌else◌,
  Bool-cases, inl, inr, append_assoc, append-nil, leb→gt, leb→le,
}
use mathlib.Core.List.{map-append}
use facto.Go.Text.{Bytes}
use facto.Go.Time.{Time}
use facto.Go.Library.{Codec}
use facto.Processor.Storage.{EventRow}
use facto.Api.Event.{EventResponse}
use facto.Api.Storage.{
  Rows, Result, ok, scan_events, scan_dates, get_events, page_of, event_of_row, get_date_range,
}
use facto.Api.Storage.Pages.{paginate-within}

take-nil : {A : Type 0} (k : ℕ) → take {A = A} k [] ≡ []
take-nil zero = refl
take-nil (suc k) = refl

take-append :
    {A : Type 0} (k : ℕ) (xs ys : List A) → take k (xs ++ ys) ≡ take k xs ++ take (k - length xs) ys
take-append k [] ys =
    let same : k ≡ k - 0 = omega arith in
    ap (λ n. take n ys) same ∙ ap (λ l. l ++ take (k - 0) ys) (sym (take-nil k))
take-append zero (x ∷ xs) ys =
    let none_left : 0 ≡ 0 - length (x ∷ xs) = omega arith in ap (λ n. take n ys) none_left
take-append (suc k) (x ∷ xs) ys =
    let same : k - length xs ≡ suc k - length (x ∷ xs) = omega arith in
    ap (λ l. x ∷ l) (take-append k xs ys ∙ ap (λ n. take k xs ++ take n ys) same)

abbrev pub OfAgent : Bytes → List EventRow → Type 0
OfAgent agent = All (λ r. r.agent_id ≡ agent)

-- The rows of the dates, one date after the other.
abbrev pub rows_of : (Bytes → Time → Rows EventRow) → Bytes → List Time → List EventRow
rows_of query agent dates = concat (map (λ d. (query agent d).rows) dates)

-- What a query gives when nothing goes wrong: the rows of the agent, and no error.
abbrev pub IsClean : (Bytes → Time → Rows EventRow) → Bytes → Time → Type 0
IsClean query agent d = ((query agent d).close ≡ none) × OfAgent agent (query agent d).rows

-- The query of one date.
abbrev pub on_date :
    (Bytes → Time → Time → Time → ℕ → Rows EventRow)
    → Time
    → Time
    → ℕ
    → Bytes
    → Time
    → Rows EventRow
on_date query start last limit agent date = query agent date start last (limit + 1)

module _ (codec : Codec) where
  scan_events-full :
      (limit : ℕ) (r : EventRow) (rs : List EventRow) (events : List EventResponse) (agent : Bytes)
      → let next = events ++ event_of_row codec r ∷ [] in
        leb limit (length next) ≡ true
        → scan_events codec limit (r ∷ rs) events agent ≡ (next, r.agent_id)
  unfolding scan_events
  scan_events-full limit r rs events agent t = rw t refl

  scan_events-more :
      (limit : ℕ) (r : EventRow) (rs : List EventRow) (events : List EventResponse) (agent : Bytes)
      → let next = events ++ event_of_row codec r ∷ [] in
        leb limit (length next) ≡ false
        → scan_events codec limit (r ∷ rs) events agent ≡ scan_events codec limit rs next r.agent_id
  unfolding scan_events
  scan_events-more limit r rs events agent t = rw t refl

  scan_events-take :
      (limit : ℕ) (agent : Bytes) (rs : List EventRow) (events : List EventResponse)
      → length events < limit
      → OfAgent agent rs
      → scan_events codec limit rs events agent
        ≡ (events ++ map (event_of_row codec) (take (limit - length events) rs), agent)
  unfolding scan_events
  scan_events-take limit agent [] events l h =
      rw (take-nil {A = EventRow} (limit - length events), append-nil events) refl
  scan_events-take limit agent (r ∷ rs) events l h =
      let ev = event_of_row codec in
      let next = events ++ ev r ∷ [] in
      let n = length-append events (ev r ∷ []) in
      let k = limit - length next in
      let more : suc k ≡ limit - length events = omega (arith, n) in
      let found : ℕ → List EventResponse × Bytes =
        λ m. (events ++ map ev (take m (r ∷ rs)), agent) in
      let counted = ap found more in
      elim (Bool-cases (leb limit (length next))) [
        | inl t ↦
            let done : 0 ≡ k = omega (arith, leb→le _ _ t) in
            scan_events-full limit r rs events agent t
            ∙ ap (λ a. (next, a)) h.0
            ∙ ap (λ m. found (suc m)) done
            ∙ counted
        | inr t ↦
            scan_events-more limit r rs events agent t
            ∙ ap (scan_events codec limit rs next) h.0
            ∙ scan_events-take limit agent rs next (leb→gt _ _ t) h.1
            ∙ ap (λ x. (x, agent)) (append_assoc events (ev r ∷ []) (map ev (take k rs)))
            ∙ counted
      ]

  module _ (limit : ℕ) (query : Bytes → Time → Rows EventRow) (agent : Bytes) where
    -- One date, and the dates after it.
    next_date :
        (events : List EventResponse) (rows more : List EventRow)
        (rest : Result (List EventResponse))
        → length events < limit
        → let scanned = events ++ map (event_of_row codec) (take (limit - length events) rows) in
          (length scanned < limit
            → rest ≡ ok (scanned ++ map (event_of_row codec) (take (limit - length scanned) more)))
          → (if leb limit (length scanned) then ok scanned else rest)
            ≡ ok (events ++ map (event_of_row codec) (take (limit - length events) (rows ++ more)))
    next_date events rows more rest l h =
        let ev = event_of_row codec in
        let k = limit - length events in
        let scanned = events ++ map ev (take k rows) in
        let a = length-append events (map ev (take k rows)) in
        let b = length-map ev (take k rows) in
        let c = length-take k rows in
        let left : limit - length scanned ≡ k - length rows = omega (arith, a, b, c) in
        let joined : scanned ++ map ev (take (k - length rows) more)
            ≡ events ++ map ev (take k (rows ++ more)) =
          append_assoc events (map ev (take k rows)) (map ev (take (k - length rows) more))
          ∙ ap (λ x. events ++ x)
              (sym (map-append ev (take k rows) (take (k - length rows) more))
                ∙ ap (map ev) (sym (take-append k rows more))) in
        elim (Bool-cases (leb limit (length scanned))) [
          | inl t ↦
              let full : k - length rows ≡ 0 = omega (arith, a, b, c, leb→le _ _ t) in
              rw t (
                ap ok (
                  sym (append-nil scanned)
                  ∙ ap (λ n. scanned ++ map ev (take n more)) (sym full)
                  ∙ joined))
          | inr t ↦ rw t (
              h (leb→gt _ _ t) ∙ ap (λ n. ok (scanned ++ map ev (take n more))) left ∙ ap ok joined)
        ]

    scan_dates-cons :
        (d : Time) (dates : List Time) (events scanned : List EventResponse)
        → (query agent d).close ≡ none
        → scan_events codec limit (query agent d).rows events agent ≡ (scanned, agent)
        → scan_dates codec query limit (d ∷ dates) events agent ≡ (
            if leb limit (length scanned)
            then ok scanned
            else scan_dates codec query limit dates scanned agent)
    unfolding scan_dates
    scan_dates-cons d dates events scanned c s = rw (scan_dates, c, s) refl

    scan_dates-take :
        (dates : List Time) (events : List EventResponse)
        → length events < limit
        → All (IsClean query agent) dates
        → scan_dates codec query limit dates events agent
          ≡ ok (
              events
              ++ map
                  (event_of_row codec)
                  (take (limit - length events) (rows_of query agent dates)))
    unfolding scan_dates
    scan_dates-take [] events l h =
        rw (take-nil {A = EventRow} (limit - length events), append-nil events) refl
    scan_dates-take (d ∷ dates) events l h =
        scan_dates-cons d dates events _ h.0.0
          (scan_events-take limit agent (query agent d).rows events l h.0.1)
        ∙ next_date events (query agent d).rows (rows_of query agent dates) _ l
            (λ m. scan_dates-take dates _ m h.1)

  -- With a positive limit, and if every query of a date yields rows of its agent and closes without an
  -- error, GetEvents gives the events of the first rows up to the limit, one date after the other, each
  -- in the order of its query, and no next cursor.
  pub get_events-found :
      (query : Bytes → Time → Time → Time → ℕ → Rows EventRow) (agent_id : Bytes)
      (start last : Time) (limit : ℕ) (cursor : Bytes)
      → 0 < limit
      → All (IsClean (on_date query start last limit) agent_id) (get_date_range start last)
      → get_events codec query agent_id start last limit cursor
        ≡ ok (
          map (event_of_row codec) (
              take limit
                (rows_of (on_date query start last limit) agent_id (get_date_range start last))),
          none,
        )
  unfolding get_events
  get_events-found query agent_id start last limit cursor pos h =
      let by_date = on_date query start last limit in
      let dates = get_date_range start last in
      let rows = take limit (rows_of by_date agent_id dates) in
      let n = length-map (event_of_row codec) rows in
      let m = length-take limit (rows_of by_date agent_id dates) in
      let all : limit - 0 ≡ limit = omega arith in
      ap (page_of limit) (
        scan_dates-take limit by_date agent_id dates [] pos h
        ∙ ap (λ k. ok (map (event_of_row codec) (take k (rows_of by_date agent_id dates)))) all)
      ∙ ap ok (paginate-within codec limit (map (event_of_row codec) rows) (omega (arith, n, m)))
