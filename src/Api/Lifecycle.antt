-- ===== src/Api/Lifecycle.antt =====
-- server/api/main.go: main after its configuration, with NewStorage and Close of server/api/storage.go. How
-- CreateSession and the server of net/http behave is a parameter of the steps.
pub mod Closing
use facto.Base.{ℕ, suc, ◌-◌, ◌<◌, ◌≡◌, List, [], ◌∷◌, ◌++◌, Option, none, some, Bool, true, false}
use facto.Api.Storage.{Error}

-- The session of gocql; nil before it is opened.
pub data Session : Type 0 where
  absent opened closed : Session

-- Whether main waits for a signal, is in `srv.Shutdown`, or the process has ended with a code.
pub data Phase : Type 0 where
  waiting shutting_down : Phase
  exited : ℕ → Phase

-- `active` is the number of requests whose handlers run.
pub record Process : Type 0 where
  pub session : Session
  pub listening : Bool
  pub active : ℕ
  pub phase : Phase

abbrev pub new_storage : Option Error → Session × Option Error
new_storage (some e) = (absent, some e)
new_storage none = (opened, none)

-- `if s.session != nil { s.session.Close() }`
abbrev pub close : Session → Session
close absent = absent
close opened = closed
close closed = closed

abbrev pub with_storage : Session × Option Error → Process
with_storage (session, some e) = record {
  session = session;
  listening = false;
  active = 0;
  phase = exited 1;
}
with_storage (session, none) = record {
  session = session;
  listening = true;
  active = 0;
  phase = waiting;
}

-- main up to the wait for a signal, by how CreateSession ends.
unfoldable pub start_up : Option Error → Process
start_up created = with_storage (new_storage created)

-- main returns, and runs its deferred `storage.Close()`.
abbrev pub main_returns : Process → Process
main_returns p = record p { session = close p.session; phase = exited 0 }

-- A request begins or ends; ListenAndServe fails, which is fatal; a signal arrives; Shutdown returns since
-- no request is active, or its five seconds are over, which is only logged.
pub data Event : Type 0 where
  request_began request_ended listen_failed signalled shut_down timed_out : Event

pub data Step (p : Process) : Event → Process → Type 0 where
  begin_request :
      p.listening ≡ true
      → p.phase ≡ waiting
      → Step p request_began (record p { active = suc p.active })
  end_request :
      (phase : Phase)
      → p.phase ≡ phase
      → ((code : ℕ) → ¬ (phase ≡ exited code))
      → 0 < p.active
      → Step p request_ended (record p { active = p.active - 1 })
  fail_listening :
      p.listening ≡ true
      → p.phase ≡ waiting
      → Step p listen_failed (record p { listening = false; phase = exited 1 })
  signal :
      p.phase ≡ waiting → Step p signalled (record p { listening = false; phase = shutting_down })
  shutdown_returns : p.phase ≡ shutting_down → p.active ≡ 0 → Step p shut_down (main_returns p)
  shutdown_expires : p.phase ≡ shutting_down → Step p timed_out (main_returns p)

pub data Reach (created : Option Error) : List Event → Process → Type 0 where
  begin : Reach created [] (start_up created)
  onward :
      {p q : Process} {events : List Event} {e : Event}
      → Reach created events p
      → Step p e q
      → Reach created (events ++ e ∷ []) q
