-- ===== src/Tests/Stopping.antt =====
-- A run of main of server/api/main.go that ends while a request is served.
use facto.Base.{refl, arith, List, [], ◌∷◌, none, false}
use facto.Api.Lifecycle.{
  closed, Process, exited, Event, request_began, request_ended, signalled, timed_out, Reach, begin,
  onward, begin_request, end_request, signal, shutdown_expires, waiting, start_up,
}
use facto.Api.Lifecycle.Closing.{IsClean, Reach-IsClean}

abbrev interrupted : Process
interrupted = record { session = closed; listening = false; active = 1; phase = exited 0 }

abbrev events : List Event
events = request_began ∷ request_began ∷ request_ended ∷ signalled ∷ timed_out ∷ []

interrupted-Reach : Reach none events interrupted
unfolding start_up
interrupted-Reach =
    onward
      (onward
        (onward (onward (onward begin (begin_request refl refl)) (begin_request refl refl))
          (end_request waiting refl (λ code e. cc e) (omega arith)))
        (signal refl))
      (shutdown_expires refl)

Reach-IsClean_example : IsClean none events interrupted
Reach-IsClean_example = Reach-IsClean interrupted-Reach
