-- ===== src/Tests/Running.antt =====
-- A run of main of server/processor/main.go in which Start returns an error.
use facto.Base.{Has, ◌≡◌, refl, ◌⊎◌, [], ◌∷◌, none, some, false, true}
use facto.Processor.Service.{
  opened, returned, waiting, Process, Drivers, start_up, start_returned, server_failed, signalled,
  start_returns, server_fails, Follows, here, later, health,
}
use facto.Processor.Service.Stays.{Waits, returned-Waits}

abbrev drivers : Drivers
drivers = record { create_session = none; connect = none; new_jetstream = none }

-- After the error of Start.
abbrev failed : Process
failed = record {
  session = opened;
  connection = opened;
  context_done = true;
  consuming = returned (some 1);
  serving = true;
  phase = waiting;
}

failed-Follows : Follows (start_up drivers) (start_returned (some 1) ∷ []) failed
unfolding start_up
failed-Follows = later here (start_returns (some 1) refl (λ code e. absurd (cc e)))

failed-health : health failed ≡ some 200
unfolding health
failed-health = refl

returned-Waits_example :
    Has (λ e. e ≡ signalled) (server_failed ∷ [])
    ⊎ (Waits (some 1) (record failed { serving = false })
        × ((health (record failed { serving = false }) ≡ health failed)
            ⊎ Has (λ e. e ≡ server_failed) (server_failed ∷ [])))
returned-Waits_example =
    returned-Waits drivers (some 1) failed-Follows refl refl
      (later here (server_fails refl (λ code e. absurd (cc e))))
