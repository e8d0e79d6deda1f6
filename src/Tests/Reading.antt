-- ===== src/Tests/Reading.antt =====
-- An acknowledged message of the run of both goroutines, read through the API of server/api.
use facto.Base.{
  Has, ◌≡◌, refl, ◌∙◌, subst, ap, List, [], ◌∷◌, some, inl, inr, Bool-cases, false, if◌then◌else◌,
  eq_bytes, eq_bytes-eq, eq_bytes_refl,
}
use facto.Go.Text.{Bytes, codes}
use facto.Go.Time.{Time}
use facto.Processor.Event.{FactoEvent}
use facto.Processor.Storage.{EventRow}
use facto.Processor.Consumer.Loop.{received_from}
use facto.Api.Storage.{Single, row, not_found}
use facto.Api.Storage.Stored.{RoundTrips}
use facto.Pipeline.{read_back, Selects, Answers, acked-Answers}
use facto.Tests.Data.{toy, toy_codec, toy_unmarshal, event_named, empty_database, good}
use facto.Tests.Fetching.{stuck, taken, stuck-Reach}

-- The first row with the identifier.
abbrev pick : (Time → Time) → List EventRow → Bytes → Single EventRow
pick column [] id = not_found
pick column (r ∷ rs) id =
    let rest = pick column rs id in
    if eq_bytes r.facto_id id then row (read_back column r) else rest

pick-Selects :
    (column : Time → Time) (table : List EventRow) → Selects column table (pick column table)
pick-Selects column [] = record { selected = λ id h. absurd h }
pick-Selects column (r ∷ rs) = record {
  selected = λ id h. elim (Bool-cases (eq_bytes r.facto_id id)) [
    | inl t ↦ (
      r,
      inl refl,
      eq_bytes-eq r.facto_id id t,
      ap (λ b. if b then row (read_back column r) else pick column rs id) t,
    )
    | inr f ↦
        let (s, member, same, yields) = (pick-Selects column rs).selected id (later id f h) in
        (
          s,
          inr member,
          same,
          ap (λ b. if b then row (read_back column r) else pick column rs id) f ∙ yields,
        )
  ];
}
  where
    later :
        (id : Bytes)
        → eq_bytes r.facto_id id ≡ false
        → Has (λ s. s.facto_id ≡ id) (r ∷ rs)
        → Has (λ s. s.facto_id ≡ id) rs
    later id f (inl e) = absurd (cc (f, eq_bytes_refl id, ap (λ i. eq_bytes i id) e))
    later id f (inr h) = h

toy-RoundTrips :
    (payload : Bytes) (e : FactoEvent) → toy_unmarshal payload ≡ some e → RoundTrips toy_codec e
toy-RoundTrips [] e h = absurd (cc h)
toy-RoundTrips (b ∷ bs) e h =
    let same : event_named (b ∷ bs) ≡ e = cc h in
    subst (RoundTrips toy_codec) same
      (record { input = refl; output = refl; tools = refl; empty_slice = refl })

acked-Answers_example :
    ∥ Answers
      (λ t. t)
      toy_codec
      toy_unmarshal
      toy-RoundTrips
      (received_from taken)
      (pick (λ t. t) stuck.consumer.db.by_facto_id)
      (codes "ab") ∥₁
acked-Answers_example =
    acked-Answers (λ t. t) toy_codec toy_unmarshal toy-RoundTrips toy 1 empty_database
      (pick (λ t. t) stuck.consumer.db.by_facto_id) stuck-Reach refl
      (pick-Selects (λ t. t) stuck.consumer.db.by_facto_id) good (event_named (codes "ab"))
      (inl refl) refl (λ e. absurd (cc e))
