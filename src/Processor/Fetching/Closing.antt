-- ===== src/Processor/Fetching/Closing.antt =====
-- The closing of msgChan in Start of server/processor/consumer.go.
use facto.Base.{ℕ, ◌≡◌, refl, List, Option, true, false}
use facto.Go.Text.{Bytes}
use facto.Go.Sha.{Digest}
use facto.Go.Library.{Codec}
use facto.Processor.Event.{FactoEvent}
use facto.Processor.Storage.Batch.{Database}
use facto.Processor.Consumer.{Input}
use facto.Processor.Fetching.{
  System, stopped, initial, Inner, cancel, fetch, fetch_failed, send, send_on_closed, sent_all,
  close, close_again, inner, select, Reach, begin, onward,
}

-- The channel is closed exactly when the goroutine that sends on it has returned, which is only once the
-- context has ended, and nothing has panicked.
pub record IsClosing (s : System) : Type 0 where
  pub closed_iff : (s.closed ≡ true → s.fetcher ≡ stopped) × (s.fetcher ≡ stopped → s.closed ≡ true)
  pub after_done : s.closed ≡ true → s.done ≡ true
  pub calm : s.panicked ≡ false

Inner-IsClosing : {n : ℕ} {s t : System} → Inner n s t → IsClosing s → IsClosing t
Inner-IsClosing cancel h = record {
  closed_iff = h.closed_iff;
  after_done = λ c. refl;
  calm = h.calm;
}
Inner-IsClosing (fetch ms p d l) h = record {
  closed_iff = ((λ c. absurd (cc (h.closed_iff.0 c, p))), λ e. absurd (cc e));
  after_done = h.after_done;
  calm = h.calm;
}
Inner-IsClosing (fetch_failed p d) h = h
Inner-IsClosing (send m ms p c l) h = record {
  closed_iff = ((λ k. absurd (cc (k, c))), λ e. absurd (cc e));
  after_done = h.after_done;
  calm = h.calm;
}
Inner-IsClosing (send_on_closed m ms p c) h = absurd (cc (h.closed_iff.0 c, p))
Inner-IsClosing (sent_all p) h = record {
  closed_iff = ((λ c. absurd (cc (h.closed_iff.0 c, p))), λ e. absurd (cc e));
  after_done = h.after_done;
  calm = h.calm;
}
Inner-IsClosing (close p d c) h = record {
  closed_iff = ((λ k. refl), λ e. refl);
  after_done = λ k. d;
  calm = h.calm;
}
Inner-IsClosing (close_again p d c) h = absurd (cc (h.closed_iff.0 c, p))

module _ (sha256 : Digest) (codec : Codec) (unmarshal : Bytes → Option FactoEvent) (n : ℕ) where
  -- However the goroutines of Start interleave, msgChan is closed at most once, only after the context has
  -- ended, and never sent on once closed: it is closed exactly if the goroutine that fetches has
  -- returned, and neither panics.
  pub Reach-IsClosing :
      (db : Database) {taken : List Input} {s : System}
      → Reach sha256 codec unmarshal n db taken s
      → IsClosing s
  unfolding initial
  Reach-IsClosing db (begin pos) = record {
    closed_iff = ((λ c. absurd (cc c)), λ e. absurd (cc e));
    after_done = λ c. absurd (cc c);
    calm = refl;
  }
  Reach-IsClosing db (onward r (inner st)) = Inner-IsClosing st (Reach-IsClosing db r)
  Reach-IsClosing db (onward r (select i c x going offered took)) =
      let h = Reach-IsClosing db r in
      record { closed_iff = h.closed_iff; after_done = h.after_done; calm = h.calm }
