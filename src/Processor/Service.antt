-- ===== src/Processor/Service.antt =====
-- server/processor/main.go: main after its configuration, with NewStorage, NewConsumer and the two methods
-- Close that it calls. How each call of the drivers ends is a parameter.
pub mod Stays
use facto.Base.{
  ℕ, List, [], ◌∷◌, ◌++◌, ◌≡◌, ◌≢◌, Option, none, some, Bool, true, false, if◌then◌else◌,
}
use facto.Processor.Storage.Batch.{Error}

-- The session of gocql, or the connection to NATS; nil before it is opened.
pub data Resource : Type 0 where
  absent opened closed : Resource

-- The goroutine that calls Start, until it returns.
pub data Consuming : Type 0 where
  idle started : Consuming
  returned : Option Error → Consuming

-- Whether main waits for a signal, sleeps after one, or the process has ended with a code.
pub data Phase : Type 0 where
  waiting sleeping : Phase
  exited : ℕ → Phase

pub record Process : Type 0 where
  pub session : Resource
  pub connection : Resource
  pub context_done : Bool
  pub consuming : Consuming
  pub serving : Bool
  pub phase : Phase

-- How the calls of the drivers end: CreateSession, Connect, and jetstream.New.
pub record Drivers : Type 0 where
  pub create_session : Option Error
  pub connect : Option Error
  pub new_jetstream : Option Error

abbrev pub new_storage : Option Error → Resource × Option Error
new_storage (some e) = (absent, some e)
new_storage none = (opened, none)

-- NewConsumer, which closes the connection again if JetStream is refused.
abbrev pub new_consumer : Option Error → Option Error → Resource × Option Error
new_consumer (some e) new_jetstream = (absent, some e)
new_consumer none (some e) = (closed, some e)
new_consumer none none = (opened, none)

-- `if s.session != nil { s.session.Close() }`
abbrev pub close_storage : Resource → Resource
close_storage absent = absent
close_storage opened = closed
close_storage closed = closed

-- `if c.nc != nil { c.nc.Close() }`
abbrev pub close_consumer : Resource → Resource
close_consumer absent = absent
close_consumer opened = closed
close_consumer closed = closed

-- `log.Fatal`, which ends the process with the code 1 and runs no deferred call.
abbrev pub fatal : Resource → Resource → Process
fatal session connection = record {
  session = session;
  connection = connection;
  context_done = false;
  consuming = idle;
  serving = false;
  phase = exited 1;
}

abbrev pub with_consumer : Resource → Resource × Option Error → Process
with_consumer session (connection, some e) = fatal session connection
with_consumer session (connection, none) = record {
  session = session;
  connection = connection;
  context_done = false;
  consuming = started;
  serving = true;
  phase = waiting;
}

abbrev pub with_storage : Drivers → Resource × Option Error → Process
with_storage d (session, some e) = fatal session absent
with_storage d (session, none) = with_consumer session (new_consumer d.connect d.new_jetstream)

-- main up to the wait for a signal.
unfoldable pub start_up : Drivers → Process
start_up d = with_storage d (new_storage d.create_session)

-- `cancel()` if Start returned an error.
abbrev pub cancel_on : Option Error → Bool → Bool
cancel_on none context_done = context_done
cancel_on (some e) context_done = true

-- Start returns; the metrics server fails, which is only logged; a signal arrives; the sleep is over, and
-- main returns through its deferred calls.
pub data Event : Type 0 where
  start_returned : Option Error → Event
  server_failed signalled main_returned : Event

pub data Step (p : Process) : Event → Process → Type 0 where
  start_returns :
      (r : Option Error)
      → p.consuming ≡ started
      → ((code : ℕ) → p.phase ≢ exited code)
      → Step p
          (start_returned r)
          (record p { consuming = returned r; context_done = cancel_on r p.context_done })
  server_fails :
      p.serving ≡ true
      → ((code : ℕ) → p.phase ≢ exited code)
      → Step p server_failed (record p { serving = false })
  signal : p.phase ≡ waiting → Step p signalled (record p { phase = sleeping; context_done = true })
  main_returns :
      p.phase ≡ sleeping
      → Step p main_returned (record p {
        connection = close_consumer p.connection;
        session = close_storage p.session;
        context_done = true;
        serving = false;
        phase = exited 0;
      })

-- What can follow a state, with what happens on the way.
pub data Follows (p : Process) : List Event → Process → Type 0 where
  here : Follows p [] p
  later :
      {q r : Process} {events : List Event} {e : Event}
      → Follows p events q
      → Step q e r
      → Follows p (events ++ e ∷ []) r

-- GET /health of the metrics server.
unfoldable pub health : Process → Option ℕ
health p = if p.serving then some 200 else none
