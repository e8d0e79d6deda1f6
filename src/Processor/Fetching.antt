-- ===== src/Processor/Fetching.antt =====
-- server/processor/consumer.go: Start with its two goroutines, the loop of select and the one that fetches,
-- which share the channel msgChan and the context, interleaved in any order. The batch size, which is the
-- channel's capacity, is positive.
pub mod Refine
pub mod Order
pub mod Bounds
pub mod Closing
pub mod Leak
pub mod Exits
pub mod Drain
use facto.Base.{
  ℕ, ◌≤◌, ◌<◌, ◌≡◌, List, [], ◌∷◌, ◌++◌, Option, none, some, Bool, true, false, length,
}
use facto.Go.Text.{Bytes}
use facto.Go.Sha.{Digest}
use facto.Go.Library.{Codec}
use facto.Processor.Event.{FactoEvent}
use facto.Processor.Storage.Batch.{Database}
use facto.Processor.Consumer.{
  Consumer, Msg, Environment, Input, Exit, cancelled, message, channel_closed, tick, running,
  new_consumer, receive,
}

-- Where the goroutine that fetches stands: before its select, at the loop over fetched messages with
-- those that it has yet to send, or returned.
pub data Fetcher : Type 0 where
  polling : Fetcher
  sending : List Msg → Fetcher
  stopped : Fetcher

-- `main` is how the loop of select has ended, if it has. `fetched` are the messages that Fetch has
-- delivered so far, and `panicked` says that the channel was closed twice, or sent on once closed.
pub record System : Type 0 where
  pub consumer : Consumer
  pub main : Exit
  pub fetcher : Fetcher
  pub queue : List Msg
  pub closed : Bool
  pub done : Bool
  pub panicked : Bool
  pub fetched : List Msg

unfoldable pub initial : ℕ → Database → System
initial batch_size db = record {
  consumer = new_consumer batch_size db;
  main = running;
  fetcher = polling;
  queue = [];
  closed = false;
  done = false;
  panicked = false;
  fetched = [];
}

abbrev pub pending : Fetcher → List Msg
pending polling = []
pending (sending ms) = ms
pending stopped = []

-- A step of the goroutine that fetches, or the end of the context. A Fetch gives at most as many messages
-- as it asks for; one that fails changes nothing.
pub data Inner (batch_size : ℕ) (s : System) : System → Type 0 where
  cancel : Inner batch_size s (record s { done = true })
  fetch :
      (ms : List Msg)
      → s.fetcher ≡ polling
      → s.done ≡ false
      → length ms ≤ batch_size
      → Inner batch_size s (record s { fetcher = sending ms; fetched = s.fetched ++ ms })
  fetch_failed : s.fetcher ≡ polling → s.done ≡ false → Inner batch_size s s
  send :
      (m : Msg) (ms : List Msg)
      → s.fetcher ≡ sending (m ∷ ms)
      → s.closed ≡ false
      → length s.queue < batch_size
      → Inner batch_size s (record s { fetcher = sending ms; queue = s.queue ++ m ∷ [] })
  send_on_closed :
      (m : Msg) (ms : List Msg)
      → s.fetcher ≡ sending (m ∷ ms)
      → s.closed ≡ true
      → Inner batch_size s (record s { panicked = true })
  sent_all : s.fetcher ≡ sending [] → Inner batch_size s (record s { fetcher = polling })
  close :
      s.fetcher ≡ polling
      → s.done ≡ true
      → s.closed ≡ false
      → Inner batch_size s (record s { fetcher = stopped; closed = true })
  close_again :
      s.fetcher ≡ polling
      → s.done ≡ true
      → s.closed ≡ true
      → Inner batch_size s (record s { panicked = true })

-- The inputs that the loop's select can take, and the messages that the channel holds after it.
pub data Offered (s : System) : Input → List Msg → Type 0 where
  context_done : (env : Environment) → s.done ≡ true → Offered s (cancelled env) s.queue
  received :
      (env : Environment) (m : Msg) (rest : List Msg)
      → s.queue ≡ m ∷ rest
      → Offered s (message env m) rest
  drained : s.queue ≡ [] → s.closed ≡ true → Offered s channel_closed s.queue
  ticked : (env : Environment) → Offered s (tick env) s.queue

module _ (sha256 : Digest) (codec : Codec) (unmarshal : Bytes → Option FactoEvent)
    (batch_size : ℕ) where
  -- A step of either goroutine, with the inputs that the loop takes in it.
  pub data Step (s : System) : List Input → System → Type 0 where
    inner : {t : System} → Inner batch_size s t → Step s [] t
    select :
        {queue : List Msg} (i : Input) (c : Consumer) (x : Exit)
        → s.main ≡ running
        → Offered s i queue
        → receive sha256 codec unmarshal i s.consumer ≡ some (c, x)
        → Step s (i ∷ []) (record s { consumer = c; main = x; queue = queue })

  -- What Start can reach on a database, with the inputs that its loop has taken.
  pub data Reach (db : Database) : List Input → System → Type 0 where
    begin : 0 < batch_size → Reach db [] (initial batch_size db)
    onward :
        {taken inputs : List Input} {s t : System}
        → Reach db taken s
        → Step s inputs t
        → Reach db (taken ++ inputs) t

  -- What can follow a state.
  pub data Follows (s : System) : System → Type 0 where
    here : Follows s s
    later : {t u : System} {inputs : List Input} → Follows s t → Step t inputs u → Follows s u
