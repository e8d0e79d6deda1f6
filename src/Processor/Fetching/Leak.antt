-- ===== src/Processor/Fetching/Leak.antt =====
-- The goroutine that fetches in Start of server/processor/consumer.go once the loop of select has ended.
use facto.Base.{
  ℕ, ◌+◌, ◌≡◌, ◌≢◌, ◌↔◌, ◌≤◌, ◌<◌, refl, ◌∙◌, sym, ap, List, [], ◌∷◌, ◌++◌, Option, some, true,
  false, arith, length, inl, inr, Bool-cases, length-append, leb, leb→le, leb→gt,
}
use facto.Go.Text.{Bytes}
use facto.Go.Sha.{Digest}
use facto.Go.Library.{Codec}
use facto.Processor.Event.{FactoEvent}
use facto.Processor.Storage.Batch.{Database}
use facto.Processor.Consumer.{Consumer, Msg, Input, Exit, running, receive}
use facto.Processor.Consumer.Shutdown.{with_exit-some}
use facto.Processor.Fetching.Refine.{Inner-consumer}
use facto.Processor.Fetching.{
  System, Fetcher, polling, sending, stopped, pending, Inner, cancel, fetch, fetch_failed, send,
  send_on_closed, sent_all, close, close_again, initial, Offered, context_done, received, drained,
  ticked, Step, inner, select, Reach, begin, onward, Follows, here, later,
}
use facto.Processor.Fetching.Bounds.{Reach-IsBounded}
use facto.Processor.Fetching.Closing.{IsClosing, Reach-IsClosing}

pub unstopped-open : {s : System} → IsClosing s → s.fetcher ≢ stopped → s.closed ≡ false
unstopped-open {s} h n = elim (Bool-cases s.closed) [
  | inl t ↦ absurd (n (h.closed_iff.0 t))
  | inr f ↦ f
]

Inner-done : {n : ℕ} {s t : System} → Inner n s t → s.done ≡ true → t.done ≡ true
Inner-done cancel h = refl
Inner-done (fetch ms p d l) h = h
Inner-done (fetch_failed p d) h = h
Inner-done (send m ms p d l) h = h
Inner-done (send_on_closed m ms p d) h = h
Inner-done (sent_all p) h = h
Inner-done (close p d c) h = h
Inner-done (close_again p d c) h = h

-- More messages are yet to be sent than the channel has room for.
record IsOverfull (n : ℕ) (s : System) : Type 0 where
  ended : s.main ≢ running
  left : List Msg
  waits : s.fetcher ≡ sending left
  open_still : s.closed ≡ false
  queued : length s.queue ≤ n
  over : n < length s.queue + length left

sending-cons :
    (l ms : List Msg) (m : Msg) → sending l ≡ sending (m ∷ ms) → length l ≡ length (m ∷ ms)
sending-cons l ms m e = ap (λ f. length (pending f)) e

Inner-IsOverfull : {n : ℕ} {s t : System} → Inner n s t → IsOverfull n s → IsOverfull n t
Inner-IsOverfull cancel h = record {
  ended = h.ended;
  left = h.left;
  waits = h.waits;
  open_still = h.open_still;
  queued = h.queued;
  over = h.over;
}
Inner-IsOverfull (fetch l p d b) h = absurd (cc (h.waits, p))
Inner-IsOverfull (fetch_failed p d) h = h
Inner-IsOverfull {s = s} (send m ms p c b) h =
    let same = sending-cons h.left ms m (sym h.waits ∙ p) in
    let grown = length-append s.queue (m ∷ []) in
    record {
      ended = h.ended;
      left = ms;
      waits = refl;
      open_still = h.open_still;
      queued = omega (arith, grown, b);
      over = omega (arith, grown, same, h.over);
    }
Inner-IsOverfull (send_on_closed m ms p c) h = absurd (cc (c, h.open_still))
Inner-IsOverfull (sent_all p) h =
    let none_left : length h.left ≡ 0 = ap (λ f. length (pending f)) (sym h.waits ∙ p) in
    absurd (omega (arith, h.queued, h.over, none_left))
Inner-IsOverfull (close p d c) h = absurd (cc (h.waits, p))
Inner-IsOverfull (close_again p d c) h = absurd (cc (h.waits, p))

module _ (sha256 : Digest) (codec : Codec) (unmarshal : Bytes → Option FactoEvent) (n : ℕ) where
  Follows-IsOverfull :
      {s t : System} → Follows sha256 codec unmarshal n s t → IsOverfull n s → IsOverfull n t
  Follows-IsOverfull here h = h
  Follows-IsOverfull (later f (inner st)) h = Inner-IsOverfull st (Follows-IsOverfull f h)
  Follows-IsOverfull (later f (select i c x going offered took)) h =
      absurd ((Follows-IsOverfull f h).ended going)

  -- A step before others.
  step-Follows :
      {s t u : System} {inputs : List Input}
      → Step sha256 codec unmarshal n s inputs t
      → Follows sha256 codec unmarshal n t u
      → Follows sha256 codec unmarshal n s u
  step-Follows st here = later here st
  step-Follows st (later f last) = later (step-Follows st f) last

  -- Some later state has the goroutine returned.
  abbrev CanReturn : System → Type 0
  CanReturn s = (t : System) × Follows sha256 codec unmarshal n s t × (t.fetcher ≡ stopped)

  sending-CanReturn :
      (ms : List Msg) (s : System)
      → s.fetcher ≡ sending ms
      → s.done ≡ true
      → s.closed ≡ false
      → length s.queue + length ms ≤ n
      → CanReturn s
  sending-CanReturn [] s p d c room =
      (_, later (later here (inner (sent_all p))) (inner (close refl d c)), refl)
  sending-CanReturn (m ∷ ms) s p d c room =
      let grown = length-append s.queue (m ∷ []) in
      let (t, f, e) =
        sending-CanReturn ms (record s { fetcher = sending ms; queue = s.queue ++ m ∷ [] }) refl d c
          (omega (arith, room, grown)) in
      (t, step-Follows (inner (send m ms p c (omega (arith, room)))) f, e)

  fits-CanReturn :
      (f : Fetcher) (s : System)
      → s.fetcher ≡ f
      → IsClosing s
      → s.done ≡ true
      → length s.queue + length (pending f) ≤ n
      → CanReturn s
  fits-CanReturn polling s p h d room =
      (_, later here (inner (close p d (unstopped-open h (λ e. absurd (cc (p, e)))))), refl)
  fits-CanReturn (sending ms) s p h d room =
      sending-CanReturn ms s p d (unstopped-open h (λ e. absurd (cc (p, e)))) room
  fits-CanReturn stopped s p h d room = (s, here, p)

  overfull :
      (f : Fetcher) (s : System)
      → s.fetcher ≡ f
      → IsClosing s
      → s.main ≢ running
      → length s.queue ≤ n
      → n < length s.queue + length (pending f)
      → IsOverfull n s
  overfull polling s p h ended q over = absurd (omega (arith, q, over))
  overfull (sending ms) s p h ended q over = record {
    ended = ended;
    left = ms;
    waits = p;
    open_still = unstopped-open h (λ e. absurd (cc (p, e)));
    queued = q;
    over = over;
  }
  overfull stopped s p h ended q over = absurd (omega (arith, q, over))

  module _ (db : Database) where
    Offered-done :
        {s : System} {queue : List Msg} (i : Input) (c : Consumer) (x : Exit)
        → IsClosing s
        → Offered s i queue
        → receive sha256 codec unmarshal i s.consumer ≡ some (c, x)
        → x ≢ running
        → s.done ≡ true
    unfolding receive
    Offered-done _ c x h (context_done env d) took ended = d
    Offered-done _ c x h (received env m rest e) took ended =
        absurd (ended (sym (with_exit-some running x _ c took).1))
    Offered-done _ c x h (drained e k) took ended = h.after_done k
    Offered-done _ c x h (ticked env) took ended =
        absurd (ended (sym (with_exit-some running x _ c took).1))

    -- The loop ends only after the context has.
    ended-done :
        {taken : List Input} {s : System}
        → Reach sha256 codec unmarshal n db taken s
        → s.main ≢ running
        → s.done ≡ true
    unfolding initial
    ended-done (begin pos) ended = absurd (ended refl)
    ended-done (onward r (inner st)) ended =
        let (same, alike) = Inner-consumer st in
        Inner-done st (ended-done r (λ e. ended (alike ∙ e)))
    ended-done (onward r (select i c x going offered took)) ended =
        Offered-done i c x (Reach-IsClosing sha256 codec unmarshal n db r) offered took ended

    -- Once the loop of Start has ended, the goroutine that fetches can return exactly if the channel has
    -- room for all the messages that it has yet to send: otherwise it has returned in no later state.
    pub fetcher_returns_iff :
        {taken : List Input} {s : System}
        → Reach sha256 codec unmarshal n db taken s
        → s.main ≢ running
        → ((t : System) × Follows sha256 codec unmarshal n s t × (t.fetcher ≡ stopped))
          ↔ (length s.queue + length (pending s.fetcher) ≤ n)
    fetcher_returns_iff {s = s} r ended =
        let h = Reach-IsClosing sha256 codec unmarshal n db r in
        let b = Reach-IsBounded sha256 codec unmarshal n db r in
        (
          (λ (t, f, e). elim (Bool-cases (leb (length s.queue + length (pending s.fetcher)) n)) [
            | inl y ↦ leb→le _ n y
            | inr x ↦
                let k =
                  Follows-IsOverfull f
                    (overfull s.fetcher s refl h ended b.queued (leb→gt _ n x)) in
                absurd (cc (k.waits, e))
          ]),
          λ room. fits-CanReturn s.fetcher s refl h (ended-done r ended) room,
        )
