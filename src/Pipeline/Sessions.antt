-- ===== src/Pipeline/Sessions.antt =====
-- VerifyChain of server/api/handlers.go on a session that server/processor/storage.go has stored.
use mathlib.Core.List.{Perm, Permᴰ}
use mathlib.Core.List.Perm
use mathlib.Core.Logic.{∥∥₁_elim}
use facto.Base.{
  ℕ, ◌-◌, ◌%◌, ◌≤◌, ◌≡◌, ◌↔◌, refl, subst, sym, ◌∙◌, ap, Bool, true, List, [], ◌∷◌, All, map, none,
  length, take, take-length_le, length-map, arith,
}
use facto.Go.Text.{Bytes}
use facto.Go.Time.{Time}
use facto.Go.Sha.{Digest}
use facto.Go.Sort.{Sorter, IsSortedBy}
use facto.Go.Library.{Codec}
use facto.Processor.Event.{FactoEvent}
use facto.Processor.Storage.{SessionRow, session_row, process}
use facto.Api.Event.{EventResponse}
use facto.Api.Storage.{Rows, event_of_session_row}
use facto.Api.Storage.Pages.{get_session_events-page}
use facto.Api.Storage.Stored.{RoundTrips, read_session_row}
use facto.Api.Verify.{Verifier, verify_hash, verify_signature}
use facto.Api.Handlers.{success, bound}
use facto.Api.Chain.{ChainVerifyResponse, zero_hash, handle_verify_chain}
use facto.Api.Chain.Links.{IsLinked}
use facto.Api.Chain.Valid.{IsChain, verify_chain-Verified}
use facto.Pipeline.Verdicts.{IsPlain, as_sent, session-verdicts}

module _ {A : Type 0} (test : A → Bool) where
  -- Every element passes the test.
  abbrev pub Passes : List A → Type 0
  Passes = All (λ x. test x ≡ true)

  Passes_prop : (xs : List A) → IsProp (Passes xs)
  Passes_prop [] = hlevel
  Passes_prop (x ∷ xs) = let p = Passes_prop xs in hlevel p

  Passes-perm_data : (xs ys : List A) → Permᴰ xs ys → Passes xs → Passes ys
  Passes-perm_data [] [] Permᴰ.nil h = h
  Passes-perm_data (x ∷ xs) (y ∷ ys) (Permᴰ.cons e d) h =
      (subst (λ z. test z ≡ true) e h.0, Passes-perm_data xs ys d h.1)
  Passes-perm_data (x ∷ y ∷ xs) (z ∷ w ∷ ys) (Permᴰ.swap e f) h =
      (subst (λ u. test u ≡ true) f h.1.0, (subst (λ u. test u ≡ true) e h.0, h.1.1))
  Passes-perm_data xs zs (Permᴰ.trans {l₂ = ys} d c) h =
      Passes-perm_data ys zs c (Passes-perm_data xs ys d h)

  Passes-perm : (xs ys : List A) → Perm xs ys → Passes xs → Passes ys
  Passes-perm xs ys p h = ∥∥₁_elim p (Passes_prop ys) (λ d. Passes-perm_data xs ys d h)

-- Two tests that agree along a list of pairs.
Passes-map :
    {A B : Type 0} (f : A → B) (test : B → Bool) (other : A → Bool) (xs : List A)
    → All (λ x. test (f x) ≡ other x) xs
    → (Passes test (map f xs)) ↔ (Passes other xs)
Passes-map f test other [] h = ((λ p. p), λ p. p)
Passes-map f test other (x ∷ xs) h =
    let rest = Passes-map f test other xs h.1 in
    ((λ p. (sym h.0 ∙ p.0, rest.0 p.1)), λ p. (h.0 ∙ p.0, rest.1 p.1))

module _ (column : Time → Time) (millis : (t : Time) → column t ≡ t - t % 1000000)
    (codec : Codec) where
  -- An event that storage keeps as far as the checks see it.
  pub record IsKept (e : FactoEvent) : Type 0 where
    pub json : RoundTrips codec e
    pub plain : IsPlain column codec e

  -- The row of the table of sessions, with the time at which it was written, and what is read of it.
  abbrev pub stored_row : Time × FactoEvent → SessionRow
  stored_row (now, e) = read_session_row column codec e (session_row now (process codec e))

  abbrev pub read_event : Time × FactoEvent → EventResponse
  read_event w = event_of_session_row codec (stored_row w)

  map-map_row :
      (written : List (Time × FactoEvent))
      → map (event_of_session_row codec) (map stored_row written) ≡ map read_event written
  map-map_row [] = refl
  map-map_row (w ∷ ws) = ap (λ l. read_event w ∷ l) (map-map_row ws)

  abbrev pub AllKept : List (Time × FactoEvent) → Type 0
  AllKept = All (λ (w : Time × FactoEvent). IsKept w.1)

  module _ (v : Verifier) where
    -- The events pass both checks as they were sent, and `ordered`, which are the events read in the order of
    -- completion, are linked.
    pub record IsSentChain (written : List (Time × FactoEvent)) (ordered : List EventResponse)
        : Type 0 where
      pub hashes : Passes (λ (w : Time × FactoEvent). verify_hash v (as_sent w.1)) written
      pub signatures : Passes (λ (w : Time × FactoEvent). verify_signature v (as_sent w.1)) written
      pub linked : IsLinked zero_hash ordered

    hashes_agree :
        (written : List (Time × FactoEvent))
        → AllKept written
        → All
            (λ (w : Time × FactoEvent). verify_hash v (read_event w) ≡ verify_hash v (as_sent w.1))
            written
    hashes_agree [] h = tt
    hashes_agree (w ∷ ws) h =
        ((session-verdicts column millis codec w.1 v w.0 h.0.json h.0.plain).0, hashes_agree ws h.1)

    signatures_agree :
        (written : List (Time × FactoEvent))
        → AllKept written
        → All
            (λ (w : Time × FactoEvent).
              verify_signature v (read_event w) ≡ verify_signature v (as_sent w.1))
            written
    signatures_agree [] h = tt
    signatures_agree (w ∷ ws) h = (
      (session-verdicts column millis codec w.1 v w.0 h.0.json h.0.plain).1,
      signatures_agree ws h.1,
    )

    IsChain-IsSentChain :
        (written : List (Time × FactoEvent)) (ordered : List EventResponse)
        → AllKept written
        → Perm ordered (map read_event written)
        → IsChain v ordered ↔ IsSentChain written ordered
    IsChain-IsSentChain written ordered kept p =
        let hashes =
          Passes-map read_event (verify_hash v)
            (λ (w : Time × FactoEvent). verify_hash v (as_sent w.1)) written
            (hashes_agree written kept) in
        let signatures =
          Passes-map read_event (verify_signature v)
            (λ (w : Time × FactoEvent). verify_signature v (as_sent w.1)) written
            (signatures_agree written kept) in
        let back = Perm.symm p in
        (
          (λ h. record {
            hashes =
                hashes.0 (Passes-perm (verify_hash v) ordered (map read_event written) p h.hashes);
            signatures =
                signatures.0 (
                  Passes-perm (verify_signature v) ordered (map read_event written) p h.signatures);
            linked = h.linked;
          }),
          λ h. record {
            hashes =
                Passes-perm (verify_hash v) (map read_event written) ordered back
                  (hashes.1 h.hashes);
            signatures =
                Passes-perm (verify_signature v) (map read_event written) ordered back
                  (signatures.1 h.signatures);
            linked = h.linked;
          },
        )

    module _ (sha256 : Digest) (sorter : Sorter (λ (e : EventResponse). e.completed_at))
        (query : Bytes → ℕ → Rows SessionRow) (session_id : Bytes) where
      -- What the whole session gives.
      pub record IsVerdict (written : List (Time × FactoEvent)) (r : ChainVerifyResponse)
          : Type 0 where
        pub ordered : List EventResponse
        pub permuted : Perm ordered (map read_event written)
        pub sorted : IsSortedBy (λ e. e.completed_at) ordered
        pub valid_iff : (r.valid ≡ true) ↔ IsSentChain written ordered

      -- If the query of a session yields the rows of at most 10000 written events, all of them kept by storage
      -- as far as the checks see them, and columns of times keep milliseconds: a response of VerifyChain
      -- with status 200 says that the chain is valid exactly if every event passed both checks as it was
      -- sent, and the events read are linked in some order in which none comes before one completed earlier.
      pub verify_chain-IsVerdict :
          (written : List (Time × FactoEvent)) (r : ChainVerifyResponse)
          → AllKept written
          → length written ≤ 10000
          → (query session_id 10001).rows ≡ map stored_row written
          → (query session_id 10001).close ≡ none
          → handle_verify_chain sha256 v sorter codec query (bound session_id) ≡ success r
          → IsVerdict written r
      verify_chain-IsVerdict written r kept few rows closed answered =
          let x = verify_chain-Verified v sha256 sorter codec query session_id r answered in
          let page = get_session_events-page codec query session_id 10000 [] closed in
          let events : x.events
              ≡ map (event_of_session_row codec) (take 10000 (query session_id 10001).rows) =
            cc (x.found, page) in
          let short : length (map stored_row written) ≤ 10000 =
            omega (arith, length-map stored_row written, few) in
          let whole : x.events ≡ map read_event written =
            events
            ∙ ap (λ l. map (event_of_session_row codec) (take 10000 l)) rows
            ∙ ap (map (event_of_session_row codec))
                (take-length_le 10000 (map stored_row written) short)
            ∙ map-map_row written in
          let p = subst (Perm x.ordered) whole x.permuted in
          let iff = IsChain-IsSentChain written x.ordered kept p in
          record {
            ordered = x.ordered;
            permuted = p;
            sorted = x.sorted;
            valid_iff = ((λ t. iff.0 (x.valid_iff.0 t)), λ h. x.valid_iff.1 (iff.1 h));
          }
