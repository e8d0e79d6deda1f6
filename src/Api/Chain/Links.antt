-- ===== src/Api/Chain/Links.antt =====
-- The loops of VerifyChain of server/api/handlers.go: what their verdicts mean, and when they panic.
use facto.Base.{
  ℕ, ◌≡◌, ◌≢◌, ◌<◌, ◌≤◌, refl, ◌∙◌, sym, ap, ◌⊎◌, inl, inr, ◌↔◌, List, [], ◌∷◌, ◌++◌, Option, none,
  some, Bool, true, false, if◌then◌else◌, Bool-cases, All, length, eq_bytes, eq_bytes-eq,
  eq_bytes_refl, arith, take, dec_lt, le→leb, gt→leb,
}
use facto.Go.Text.{Bytes}
use facto.Api.Event.{EventResponse}
use facto.Api.Chain.{
  Verdict, check_each, prefix, broken_text, add_break, check_link, check_links, unless_panicked,
}

-- Each event names the hash of the event before it, the first one the hash given.
abbrev pub IsLinked : Bytes → List EventResponse → Type 0
IsLinked expected [] = Unit {0}
IsLinked expected (e ∷ es) = (e.proof.prev_hash ≡ expected) × IsLinked e.proof.event_hash es

-- Some link is broken where one of the two hashes has fewer than 16 bytes.
abbrev pub HasShortBreak : Bytes → List EventResponse → Type 0
HasShortBreak expected [] = ⊥
HasShortBreak expected (e ∷ es) =
    ((e.proof.prev_hash ≢ expected) × ((length expected < 16) ⊎ (length e.proof.prev_hash < 16)))
    ⊎ HasShortBreak e.proof.event_hash es

-- The verdict is kept exactly if every event passes.
pub check_each-verdict :
    (test : EventResponse → Bool) (text : Bytes) (es : List EventResponse) (r : Verdict)
    → (check_each test text es r).0 ≡ true ↔ (r.0 ≡ true) × All (λ e. test e ≡ true) es
unfolding check_each
check_each-verdict test text [] r = ((λ h. (h, tt)), λ h. h.0)
check_each-verdict test text (e ∷ es) r =
    let rest =
      check_each-verdict test text es
        (if test e then r else (false, r.1 ++ (text ++ e.facto_id) ∷ [])) in
    elim (Bool-cases (test e)) [
      | inl t ↦
          ((λ h. let (a, b) = rest.0 h in ((rw t at a), (t, b))), λ h. rest.1 (rw t h.0, h.1.1))
      | inr f ↦
          ((λ h. let (a, b) = rest.0 h in absurd (cc (rw f at a))), λ h. absurd (cc (f, h.1.0)))
    ]

prefix-some : (s : Bytes) → 16 ≤ length s → prefix s ≡ some (take 16 s)
unfolding prefix
prefix-some s h = rw (le→leb 16 (length s) h) refl

prefix-none : (s : Bytes) → length s < 16 → prefix s ≡ none
unfolding prefix
prefix-none s h = rw (gt→leb 16 (length s) h) refl

-- What one round of the loop over the links finds.
data Link (e : EventResponse) (expected : Bytes) (r : Verdict) : Type 0 where
  whole : e.proof.prev_hash ≡ expected → check_link e expected r ≡ some r → Link e expected r
  broken :
      e.proof.prev_hash ≢ expected
      → 16 ≤ length expected
      → 16 ≤ length e.proof.prev_hash
      → (errors : List Bytes) → check_link e expected r ≡ some (false, errors)
      → Link e expected r
  short :
      e.proof.prev_hash ≢ expected
      → ((length expected < 16) ⊎ (length e.proof.prev_hash < 16))
      → check_link e expected r ≡ none
      → Link e expected r

broken_text-none : (facto_id : Bytes) (o : Option Bytes) → broken_text facto_id o none ≡ none
broken_text-none facto_id none = refl
broken_text-none facto_id (some x) = refl

add_break-some :
    (r : Verdict) (facto_id a b : Bytes)
    → (errors : List Bytes) × (add_break r (broken_text facto_id (some a) (some b))
        ≡ some (false, errors))
add_break-some r facto_id a b = (_, refl)

classify : (e : EventResponse) (expected : Bytes) (r : Verdict) → Link e expected r
unfolding check_link
classify e expected r = elim (Bool-cases (eq_bytes e.proof.prev_hash expected)) [
  | inl y ↦ whole (eq_bytes-eq _ _ y) (rw y refl)
  | inr n ↦
      let differ : e.proof.prev_hash ≢ expected =
        λ p. cc (n, eq_bytes_refl expected, ap (λ x. eq_bytes x expected) p) in
      elim (dec_lt (length expected) 16) [
        | yes l ↦ short differ (inl l) (rw (n, prefix-none expected l) refl)
        | no a ↦ elim (dec_lt (length e.proof.prev_hash) 16) [
          | yes l ↦
              short differ (inr l) (rw (n, prefix-none e.proof.prev_hash l, broken_text-none) refl)
          | no b ↦
              let (errors, made) =
                add_break-some r e.facto_id (take 16 expected) (take 16 e.proof.prev_hash) in
              broken differ (omega (arith, a)) (omega (arith, b)) errors (
                rw
                  (
                    n,
                    prefix-some expected (omega (arith, a)),
                    prefix-some e.proof.prev_hash (omega (arith, b)),
                  )
                  made)
        ]
      ]
]

check_links-cons :
    (e : EventResponse) (es : List EventResponse) (expected : Bytes) (r : Verdict)
    (o : Option Verdict)
    → check_link e expected r ≡ o
    → check_links (e ∷ es) expected r ≡ unless_panicked (check_links es e.proof.event_hash) o
unfolding check_links
check_links-cons e es expected r o c = ap (unless_panicked (check_links es e.proof.event_hash)) c

-- If the loop over the links ends, its verdict is kept exactly if every event is linked.
pub check_links-verdict :
    (es : List EventResponse) (expected : Bytes) (r r' : Verdict)
    → check_links es expected r ≡ some r'
    → (r'.0 ≡ true) ↔ ((r.0 ≡ true) × IsLinked expected es)
unfolding check_links
check_links-verdict [] expected r r' h =
    let same : r ≡ r' = cc h in
    ((λ t. (ap (λ x. x.0) same ∙ t, tt)), λ t. ap (λ x. x.0) (sym same) ∙ t.0)
check_links-verdict (e ∷ es) expected r r' h = elim (classify e expected r) [
  | whole p c ↦
      let rest =
        check_links-verdict es e.proof.event_hash r r'
          (sym (check_links-cons e es expected r _ c) ∙ h) in
      ((λ t. let (a, b) = rest.0 t in (a, (p, b))), λ t. rest.1 (t.0, t.1.1))
  | broken n l m errors c ↦
      let rest =
        check_links-verdict es e.proof.event_hash (false, errors) r'
          (sym (check_links-cons e es expected r _ c) ∙ h) in
      ((λ t. absurd (cc (rest.0 t).0)), λ t. absurd (n t.1.0))
  | short n l c ↦ absurd (cc (check_links-cons e es expected r _ c, h))
]

-- The loop panics exactly if a link is broken where one of the two hashes is shorter than 16 bytes.
pub check_links-panics :
    (es : List EventResponse) (expected : Bytes) (r : Verdict)
    → (check_links es expected r ≡ none) ↔ HasShortBreak expected es
unfolding check_links
check_links-panics [] expected r = ((λ h. absurd (cc h)), λ h. absurd h)
check_links-panics (e ∷ es) expected r = elim (classify e expected r) [
  | whole p c ↦
      let rest = check_links-panics es e.proof.event_hash r in
      (
        (λ h. inr (rest.0 (sym (check_links-cons e es expected r _ c) ∙ h))),
        λ h. check_links-cons e es expected r _ c ∙ (rest.1 (later p h)),
      )
  | broken n l m errors c ↦
      let rest = check_links-panics es e.proof.event_hash (false, errors) in
      (
        (λ h. inr (rest.0 (sym (check_links-cons e es expected r _ c) ∙ h))),
        λ h. check_links-cons e es expected r _ c ∙ (rest.1 (long l m h)),
      )
  | short n l c ↦ ((λ h. inl (n, l)), λ h. check_links-cons e es expected r _ c)
]
  where
    later : {A B C : Type 0} → A → ((A → ⊥) × B) ⊎ C → C
    later a (inl (n, b)) = absurd (n a)
    later a (inr c) = c

    long : {A C : Type 0} {m n : ℕ} → 16 ≤ m → 16 ≤ n → (A × ((m < 16) ⊎ (n < 16))) ⊎ C → C
    long a b (inl (_, inl l)) = absurd (omega (arith, a, l))
    long a b (inl (_, inr l)) = absurd (omega (arith, b, l))
    long a b (inr c) = c
