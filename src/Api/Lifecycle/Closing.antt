-- ===== src/Api/Lifecycle/Closing.antt =====
-- When main of server/api/main.go closes its session with the database.
use facto.Base.{
  Has, Has-append_left, Has-append_right, ◌≡◌, ◌≢◌, refl, ◌∙◌, sym, subst, ◌⊎◌, inl, inr, List, [],
  ◌∷◌, ◌++◌, Option, none, some,
}
use facto.Api.Storage.{Error}
use facto.Api.Lifecycle.{
  Session, absent, opened, closed, waiting, shutting_down, exited, Process, close, start_up,
  main_returns, Event, listen_failed, signalled, shut_down, timed_out, Step, begin_request,
  end_request, fail_listening, signal, shutdown_returns, shutdown_expires, Reach, begin, onward,
}

abbrev Happened : Event → List Event → Type 0
Happened e events = Has (λ x. x ≡ e) events

-- While main waits or shuts down, the session is open. It is closed exactly at the regular end, after a
-- signal, and with no active request unless Shutdown expired. A fatal end leaves it open, or it never was.
pub data IsClean (created : Option Error) (events : List Event) (p : Process) : Type 0 where
  up :
      created ≡ none
      → p.session ≡ opened
      → (p.phase ≡ waiting) ⊎ ((p.phase ≡ shutting_down) × Happened signalled events)
      → IsClean created events p
  ended :
      p.session ≡ closed
      → p.phase ≡ exited 0
      → Happened signalled events
      → (p.active ≡ 0) ⊎ Happened timed_out events
      → IsClean created events p
  fatal :
      p.phase ≡ exited 1
      → ((created ≢ none) × (p.session ≡ absent))
        ⊎ ((p.session ≡ opened) × Happened listen_failed events)
      → IsClean created events p

still : (events : List Event) (e x : Event) → Happened x events → Happened x (events ++ e ∷ [])
still events e x h = Has-append_left _ events (e ∷ []) h

now : (events : List Event) (e : Event) → Happened e (events ++ e ∷ [])
now events e = Has-append_right _ events (e ∷ []) (inl refl)

close-opened : (s : Session) → s ≡ opened → close s ≡ closed
close-opened s e = rw e refl

main_returns-IsClean :
    (created : Option Error) (events : List Event) (e : Event) (p : Process)
    → IsClean created events p
    → p.phase ≡ shutting_down
    → (p.active ≡ 0) ⊎ (e ≡ timed_out)
    → IsClean created (events ++ e ∷ []) (main_returns p)
main_returns-IsClean created events e p (up c o (inl w)) s why = absurd (cc (w, s))
main_returns-IsClean created events e p (up c o (inr (w, h))) s (inl idle) =
    ended (close-opened p.session o) refl (still events e signalled h) (inl idle)
main_returns-IsClean created events e p (up c o (inr (w, h))) s (inr late) =
    ended (close-opened p.session o) refl (still events e signalled h)
      (inr (subst (λ x. Happened timed_out (events ++ x ∷ [])) (sym late) (now events timed_out)))
main_returns-IsClean created events e p (ended c w h a) s why = absurd (cc (w, s))
main_returns-IsClean created events e p (fatal w f) s why = absurd (cc (w, s))

Step-IsClean :
    {created : Option Error} {events : List Event} {e : Event} {p q : Process}
    → Step p e q
    → IsClean created events p
    → IsClean created (events ++ e ∷ []) q
Step-IsClean (begin_request l s) (up c o w) = up c o (inl s)
Step-IsClean (begin_request l s) (ended c w h a) = absurd (cc (s, w))
Step-IsClean (begin_request l s) (fatal w f) = absurd (cc (s, w))
Step-IsClean {events = events} {e = e} (end_request ph s n b) (up c o (inl w)) = up c o (inl w)
Step-IsClean {events = events} {e = e} (end_request ph s n b) (up c o (inr (w, h))) =
    up c o (inr (w, still events e signalled h))
Step-IsClean (end_request ph s n b) (ended c w h a) = absurd (n 0 (sym s ∙ w))
Step-IsClean (end_request ph s n b) (fatal w f) = absurd (n 1 (sym s ∙ w))
Step-IsClean {events = events} (fail_listening l s) (up c o w) =
    fatal refl (inr (o, now events listen_failed))
Step-IsClean (fail_listening l s) (ended c w h a) = absurd (cc (s, w))
Step-IsClean (fail_listening l s) (fatal w f) = absurd (cc (s, w))
Step-IsClean {events = events} (signal s) (up c o w) = up c o (inr (refl, now events signalled))
Step-IsClean (signal s) (ended c w h a) = absurd (cc (s, w))
Step-IsClean (signal s) (fatal w f) = absurd (cc (s, w))
Step-IsClean {created} {events} {e} {p} (shutdown_returns s idle) h =
    main_returns-IsClean created events shut_down p h s (inl idle)
Step-IsClean {created} {events} {e} {p} (shutdown_expires s) h =
    main_returns-IsClean created events timed_out p h s (inr refl)

start_up-IsClean : (created : Option Error) → IsClean created [] (start_up created)
unfolding start_up
start_up-IsClean none = up refl refl (inl refl)
start_up-IsClean (some e) = fatal refl (inl ((λ h. cc h), refl))

-- Whatever the order of requests, failures and signals: while main of the API waits or shuts down, its session
-- with the database is open; it is closed exactly at the regular end, which follows a signal, and then no
-- handler is active unless Shutdown's five seconds were over; and the fatal end, that of a session that
-- could not be opened or of a server that failed, does not close it.
pub Reach-IsClean :
    {created : Option Error} {events : List Event} {p : Process}
    → Reach created events p
    → IsClean created events p
Reach-IsClean {created} begin = start_up-IsClean created
Reach-IsClean (onward r st) = Step-IsClean st (Reach-IsClean r)
