-- ===== src/Processor/Service/Stays.antt =====
-- What main of server/processor/main.go keeps open, and what it does once Start has returned.
use facto.Base.{
  Has, Has-append_left, Has-append_right, ◌≡◌, ◌≢◌, refl, ◌∙◌, ◌⊎◌, inl, inr, List, [], ◌∷◌, ◌++◌,
  Option, none, some, false,
}
use facto.Processor.Storage.Batch.{Error}
use facto.Processor.Service.{
  Resource, opened, closed, idle, returned, waiting, sleeping, exited, Process, Drivers,
  new_storage, close_storage, close_consumer, with_storage, start_up, Step, start_returns,
  server_fails, signal, main_returns, Event, server_failed, signalled, Follows, here, later, health,
}

-- What is open in each phase: both connections until main returns, and neither after; a failed start-up
-- can leave the session open, never the connection.
pub data IsTidy (p : Process) : Type 0 where
  up :
      p.session ≡ opened
      → p.connection ≡ opened
      → (p.phase ≡ waiting) ⊎ (p.phase ≡ sleeping)
      → IsTidy p
  ended : p.session ≡ closed → p.connection ≡ closed → p.phase ≡ exited 0 → IsTidy p
  never :
      p.consuming ≡ idle → p.connection ≢ opened → p.serving ≡ false → p.phase ≡ exited 1 → IsTidy p

with_storage-IsTidy :
    (d : Drivers) (s c n : Option Error)
    → IsTidy (with_storage (record d { connect = c; new_jetstream = n }) (new_storage s))
with_storage-IsTidy d (some e) c n = never refl (λ h. cc h) refl refl
with_storage-IsTidy d none (some e) n = never refl (λ h. cc h) refl refl
with_storage-IsTidy d none none (some e) = never refl (λ h. cc h) refl refl
with_storage-IsTidy d none none none = up refl refl (inl refl)

start_up-IsTidy : (d : Drivers) → IsTidy (start_up d)
unfolding start_up
start_up-IsTidy d = with_storage-IsTidy d d.create_session d.connect d.new_jetstream

close_storage-opened : (r : Resource) → r ≡ opened → close_storage r ≡ closed
close_storage-opened r e = rw e refl

close_consumer-opened : (r : Resource) → r ≡ opened → close_consumer r ≡ closed
close_consumer-opened r e = rw e refl

Step-IsTidy : {p q : Process} {e : Event} → Step p e q → IsTidy p → IsTidy q
Step-IsTidy (start_returns r c o) (up s n w) = up s n w
Step-IsTidy (start_returns r c o) (ended s n w) = absurd (o 0 w)
Step-IsTidy (start_returns r c o) (never i n f w) = absurd (o 1 w)
Step-IsTidy (server_fails c o) (up s n w) = up s n w
Step-IsTidy (server_fails c o) (ended s n w) = absurd (o 0 w)
Step-IsTidy (server_fails c o) (never i n f w) = absurd (o 1 w)
Step-IsTidy (signal v) (up s n w) = up s n (inr refl)
Step-IsTidy (signal v) (ended s n w) = absurd (cc (v, w))
Step-IsTidy (signal v) (never i n f w) = absurd (cc (v, w))
Step-IsTidy (main_returns v) (up s n w) =
    ended (close_storage-opened _ s) (close_consumer-opened _ n) refl
Step-IsTidy (main_returns v) (ended s n w) = absurd (cc (v, w))
Step-IsTidy (main_returns v) (never i n f w) = absurd (cc (v, w))

Follows-IsTidy :
    (d : Drivers) {p : Process} {events : List Event} → Follows (start_up d) events p → IsTidy p
Follows-IsTidy d here = start_up-IsTidy d
Follows-IsTidy d (later f st) = Step-IsTidy st (Follows-IsTidy d f)

-- main waits for a signal with both connections open, while the consumer has returned `r`.
pub record Waits (r : Option Error) (p : Process) : Type 0 where
  pub phase : p.phase ≡ waiting
  pub consuming : p.consuming ≡ returned r
  pub session : p.session ≡ opened
  pub connection : p.connection ≡ opened

Step-Waits :
    {p q : Process} {e : Event} (r : Option Error)
    → Step p e q
    → Waits r p
    → (e ≡ signalled) ⊎ (Waits r q × ((health q ≡ health p) ⊎ (e ≡ server_failed)))
unfolding health
Step-Waits r (start_returns x c o) w = absurd (cc (c, w.consuming))
Step-Waits r (server_fails c o) w = inr (
  record {
    phase = w.phase;
    consuming = w.consuming;
    session = w.session;
    connection = w.connection;
  },
  inr refl,
)
Step-Waits r (signal v) w = inl refl
Step-Waits r (main_returns v) w = absurd (cc (v, w.phase))

tidy-Waits :
    (r : Option Error) (p : Process)
    → IsTidy p
    → p.phase ≡ waiting
    → p.consuming ≡ returned r
    → Waits r p
tidy-Waits r p (up s n o) w c = record { phase = w; consuming = c; session = s; connection = n }
tidy-Waits r p (ended s n o) w c = absurd (cc (o, w))
tidy-Waits r p (never i n f o) w c = absurd (cc (o, w))

last-Has : (events : List Event) (e f : Event) → e ≡ f → Has (λ x. x ≡ f) (events ++ e ∷ [])
last-Has events e f h = Has-append_right _ events (e ∷ []) (inl h)

more-Has :
    (events : List Event) (e f : Event)
    → Has (λ x. x ≡ f) events
    → Has (λ x. x ≡ f) (events ++ e ∷ [])
more-Has events e f h = Has-append_left _ events (e ∷ []) h

Follows-Waits :
    {p q : Process} {events : List Event} (r : Option Error)
    → Follows p events q
    → Waits r p
    → Has (λ e. e ≡ signalled) events
      ⊎ (Waits r q × ((health q ≡ health p) ⊎ Has (λ e. e ≡ server_failed) events))
Follows-Waits r here w = inr (w, inl refl)
Follows-Waits r (later {events = events} {e = e} f st) w = elim (Follows-Waits r f w) [
  | inl s ↦ inl (more-Has events e signalled s)
  | inr (still, alike) ↦ elim (Step-Waits r st still) [
    | inl s ↦ inl (last-Has events e signalled s)
    | inr (on, inr s) ↦ inr (on, inr (last-Has events e server_failed s))
    | inr (on, inl same) ↦ elim alike [
      | inl before ↦ inr (on, inl (same ∙ before))
      | inr s ↦ inr (on, inr (more-Has events e server_failed s))
    ]
  ]
]

-- Once Start has returned, with an error or not, while main waits: unless a signal arrives, main goes on
-- waiting with both connections open, Start is not called again, and GET /health answers as before unless
-- the metrics server fails.
pub returned-Waits :
    (d : Drivers) (r : Option Error) {p q : Process} {before events : List Event}
    → Follows (start_up d) before p
    → p.phase ≡ waiting
    → p.consuming ≡ returned r
    → Follows p events q
    → Has (λ e. e ≡ signalled) events
      ⊎ (Waits r q × ((health q ≡ health p) ⊎ Has (λ e. e ≡ server_failed) events))
returned-Waits d r {p} reached w c f =
    Follows-Waits r f (tidy-Waits r p (Follows-IsTidy d reached) w c)
