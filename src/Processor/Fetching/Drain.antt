-- ===== src/Processor/Fetching/Drain.antt =====
-- What the goroutines of Start of server/processor/consumer.go can still do while the loop runs.
use facto.Base.{ℕ, ◌≡◌, ◌<◌, refl, ◌∙◌, sym, ap, List, [], ◌∷◌, ◌++◌, Option, Bool, arith, length}
use facto.Go.Text.{Bytes}
use facto.Go.Sha.{Digest}
use facto.Go.Library.{Codec}
use facto.Processor.Event.{FactoEvent}
use facto.Processor.Storage.Batch.{Database}
use facto.Processor.Consumer.{Msg, Environment, Input, message, tick, running, receive, with_exit}
use facto.Processor.Consumer.Invariant.{count, replied, select_loop-IsConsistent}
use facto.Processor.Consumer.Progress.{IsPrompt, handle_message_returns, flush_pending_returns}
use facto.Processor.Consumer.Shutdown.{flush_pending-nil, map-nil}
use facto.Processor.Fetching.{
  System, Fetcher, polling, sending, stopped, pending, send, received, ticked, Step, inner, select,
  Reach, onward, Follows, here, later,
}
use facto.Processor.Fetching.Bounds.{Reach-IsBounded}
use facto.Processor.Fetching.Closing.{Reach-IsClosing}
use facto.Processor.Fetching.Leak.{unstopped-open}
use facto.Processor.Fetching.Order.{Reach-accounted}
use facto.Processor.Fetching.Refine.{Reach-select_loop}

module _ (sha256 : Digest) (codec : Codec) (unmarshal : Bytes → Option FactoEvent) (n : ℕ)
    (db : Database) (env : Environment) (prompt : IsPrompt n env) where
  abbrev Reached : System → Type 0
  Reached s = (taken : List Input) × Reach sha256 codec unmarshal n db taken s

  -- A later state in which the loop runs, with no other message fetched.
  record Going (s t : System) : Type 0 where
    after : Follows sha256 codec unmarshal n s t
    reached : Reached t
    going : t.main ≡ running
    same : t.fetched ≡ s.fetched

  step-Going :
      {s t : System} {inputs : List Input}
      → Step sha256 codec unmarshal n s inputs t
      → t.main ≡ running
      → t.fetched ≡ s.fetched
      → Reached s
      → Going s t
  step-Going st going same (taken, r) = record {
    after = later here st;
    reached = (_, onward r st);
    going = going;
    same = same;
  }

  Follows-trans :
      {s t u : System}
      → Follows sha256 codec unmarshal n s t
      → Follows sha256 codec unmarshal n t u
      → Follows sha256 codec unmarshal n s u
  Follows-trans f here = f
  Follows-trans f (later g st) = later (Follows-trans f g) st

  Going-trans : {s t u : System} → Going s t → Going t u → Going s u
  Going-trans g h = record {
    after = Follows-trans g.after h.after;
    reached = h.reached;
    going = h.going;
    same = h.same ∙ g.same;
  }

  take_queue :
      (queue : List Msg) (s : System)
      → Reached s
      → s.main ≡ running
      → s.queue ≡ queue
      → (t : System) × Going s t × (t.queue ≡ []) × (t.fetcher ≡ s.fetcher)
  unfolding receive
  take_queue [] s r going e =
      (s, record { after = here; reached = r; going = going; same = refl }, e, refl)
  take_queue (m ∷ rest) s r going e =
      let b = Reach-IsBounded sha256 codec unmarshal n db r.1 in
      let (c, took, below) =
        handle_message_returns sha256 codec unmarshal n b.positive env m s.consumer prompt
          (record { size = b.size; below = b.buffered }) in
      let g =
        step-Going
          (select (message env m) c running going (received env m rest e)
            (ap (with_exit running) took))
          refl refl r in
      let (t, h, empty, fetcher) =
        take_queue rest (record s { consumer = c; main = running; queue = rest }) g.reached refl
          refl in
      (t, Going-trans g h, empty, fetcher)

  send_all :
      (ms : List Msg) (s : System)
      → Reached s
      → s.main ≡ running
      → s.fetcher ≡ sending ms
      → (t : System) × Going s t × (t.queue ≡ []) × (pending t.fetcher ≡ [])
  send_all [] s r going e =
      let (t, g, empty, fetcher) = take_queue s.queue s r going refl in
      (t, g, empty, ap pending (fetcher ∙ e))
  send_all (m ∷ ms) s r going e =
      let (t, g, empty, fetcher) = take_queue s.queue s r going refl in
      let b = Reach-IsBounded sha256 codec unmarshal n db g.reached.1 in
      let open_still =
        unstopped-open (Reach-IsClosing sha256 codec unmarshal n db g.reached.1)
          (λ k. absurd (cc (k, fetcher, e))) in
      let room : length t.queue < n = omega (arith, ap length empty, b.positive) in
      let h = step-Going (inner (send m ms (fetcher ∙ e) open_still room)) g.going refl g.reached in
      let (u, k, drained, sent) =
        send_all ms (record t { fetcher = sending ms; queue = t.queue ++ m ∷ [] }) h.reached g.going
          refl in
      (u, Going-trans g (Going-trans h k), drained, sent)

  empty_channel :
      (f : Fetcher) (s : System)
      → Reached s
      → s.main ≡ running
      → s.fetcher ≡ f
      → (t : System) × Going s t × (t.queue ≡ []) × (pending t.fetcher ≡ [])
  empty_channel polling s r going e =
      let (t, g, empty, fetcher) = take_queue s.queue s r going refl in
      (t, g, empty, ap pending (fetcher ∙ e))
  empty_channel (sending ms) s r going e = send_all ms s r going e
  empty_channel stopped s r going e =
      let (t, g, empty, fetcher) = take_queue s.queue s r going refl in
      (t, g, empty, ap pending (fetcher ∙ e))

  -- A tick flushes the buffer.
  tick_answers :
      (s : System)
      → Reached s
      → s.main ≡ running
      → s.queue ≡ []
      → pending s.fetcher ≡ []
      → (t : System) × Going s t
        × ((p : Msg → Bool) → count p t.fetched ≡ count p (replied t.consumer.replies))
  unfolding receive
  tick_answers s r going empty none_left =
      let b = Reach-IsBounded sha256 codec unmarshal n db r.1 in
      let (d, took, below) =
        flush_pending_returns sha256 codec unmarshal n b.positive env s.consumer prompt
          (record { size = b.size; below = b.buffered }) in
      let g =
        step-Going (select (tick env) d running going (ticked env) (ap (with_exit running) took))
          refl refl r in
      let k =
        select_loop-IsConsistent unmarshal sha256 codec n db g.reached.0 d running
          (Reach-select_loop sha256 codec unmarshal n db g.reached.1) in
      let flushed =
        map-nil sha256 codec unmarshal d.messages d.events k.decoded
          (flush_pending-nil sha256 codec unmarshal env s.consumer d took) in
      (
        _,
        g,
        λ p. omega (
          arith,
          Reach-accounted sha256 codec unmarshal n db g.reached.1 p,
          ap (count p) flushed,
          ap (count p) empty,
          ap (count p) none_left,
        ),
      )

  -- While the loop of Start runs, and if every flush can have a schedule that gives each goroutine of
  -- StoreBatch a turn for every 50 events of a batch, the goroutines cannot have blocked each other: some
  -- later state, in which the loop still runs and nothing else was fetched, has every message that Fetch
  -- had delivered answered exactly once.
  pub can_answer_all :
      {taken : List Input} {s : System}
      → Reach sha256 codec unmarshal n db taken s
      → s.main ≡ running
      → (t : System) × Follows sha256 codec unmarshal n s t
        × (t.main ≡ running)
        × (t.fetched ≡ s.fetched)
        × ((p : Msg → Bool) → count p s.fetched ≡ count p (replied t.consumer.replies))
  can_answer_all {taken} {s} r going =
      let (t, g, empty, none_left) = empty_channel s.fetcher s (taken, r) going refl in
      let (u, h, answers) = tick_answers t g.reached g.going empty none_left in
      let k = Going-trans g h in
      (u, k.after, k.going, k.same, λ p. ap (count p) (sym k.same) ∙ answers p)
