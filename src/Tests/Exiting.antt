-- ===== src/Tests/Exiting.antt =====
-- A run of Start of server/processor/consumer.go that returns nil with a message in the buffer.
use facto.Base.{◌≡◌, refl, arith, [], ◌∷◌, some, true, false}
use facto.Processor.Consumer.{message, channel_closed, running, no_error, receive}
use facto.Processor.Fetching.{
  System, stopped, initial, cancel, fetch, send, sent_all, close, received, drained, inner, select,
  Reach, begin, onward,
}
use facto.Processor.Fetching.Exits.{Exits, Reach-Exits}
use facto.Tests.Data.{toy, toy_codec, toy_unmarshal, empty_database, environment, good}
use facto.Tests.Proving.{holding, receive-first}

abbrev unflushed : System
unflushed = record {
  consumer = holding;
  main = no_error;
  fetcher = stopped;
  queue = [];
  closed = true;
  done = true;
  panicked = false;
  fetched = good ∷ [];
}

receive-closed :
    receive toy toy_codec toy_unmarshal channel_closed holding ≡ some (holding, no_error)
unfolding receive
receive-closed = refl

unflushed-Reach :
    Reach toy toy_codec toy_unmarshal 2 empty_database
      (message environment good ∷ channel_closed ∷ [])
      unflushed
unfolding initial
unflushed-Reach =
    onward
      (onward
        (onward
          (onward
            (onward
              (onward
                (onward (begin (omega arith)) (inner (fetch (good ∷ []) refl refl (omega arith))))
                (inner (send good [] refl refl (omega arith))))
              (inner (sent_all refl)))
            (select (message environment good) holding running refl
              (received environment good [] refl) receive-first))
          (inner cancel))
        (inner (close refl refl refl)))
      (select channel_closed holding no_error refl (drained refl refl) receive-closed)

unflushed-messages : unflushed.consumer.messages ≡ good ∷ []
unflushed-messages = refl

Reach-Exits_example : Exits unflushed
Reach-Exits_example = Reach-Exits toy toy_codec toy_unmarshal 2 empty_database unflushed-Reach
