-- ===== src/Connection/Armed.antt =====
-- What holds of the connection to ubus (l850gl-mm-bridge/src/ubus_glib.c) once it was started.
use native.Mathlib.Nat.{mod-lt}
use luci_app_l850gl_mm.Base.{
  ◌/◌, ℕ, ◌≤◌, ◌<◌, Bool, true, false, List, [], ◌∷◌, Option, none, some, ◌≡◌, ◌⊎◌, refl, arith,
  if_holds, ltb, Bool-cases, inl, ◌||◌, not, inr,
}
use luci_app_l850gl_mm.Connection.{
  reconnect_initial_ms, reconnect_max_ms, Connection, schedule_reconnect, connection_lost,
  Condition, ubus_fd_ready, Attempt, connect_ubus, reconnect_cb, ubus_start, ubus_stop, Event,
  starts, loses, reports, retries, stops, react, reacts, unconnected, jitter, is_set,
  connect_or_retry, lose_if,
}

-- A delay, if there is one, is below a bound.
abbrev pub is_below : ℕ → Option ℕ → Bool
is_below bound none = true
is_below bound (some delay) = ltb delay bound

-- The connection, but for the promise that it goes on.
pub record IsConsistent (c : Connection) : Type 0 where
  pub quiet : c.stopping ≡ true → (c.is_connected ≡ false) × (c.reconnect_source ≡ none)
  pub watched : c.fd_source ≡ c.is_connected
  pub settled : c.is_connected ≡ true → (c.context_initialized ≡ true) × (c.reconnect_source ≡ none)
  pub paced :
      (reconnect_initial_ms ≤ c.reconnect_delay_ms) × (c.reconnect_delay_ms ≤ reconnect_max_ms)
  pub soon : is_below 36001 c.reconnect_source ≡ true

-- It is connected, stopping, or has a retry armed.
abbrev pub GoesOn : Connection → Type 0
GoesOn c = (c.is_connected ≡ true) ⊎ (c.stopping ≡ true) ⊎ (is_set c.reconnect_source ≡ true)

jitter-lt : (drawn delay : ℕ) → delay ≤ reconnect_max_ms → jitter drawn delay < 6001
jitter-lt drawn delay h = elim (Bool-cases (ltb 1 (delay / 5))) [
  | inl e ↦ rw e (omega (arith, mod-lt drawn {m = delay / 5} (ground (arith, e)), h))
  | inr e ↦ rw e (omega arith)
]

schedule_reconnect-IsConsistent :
    (drawn : ℕ) (c : Connection)
    → IsConsistent c
    → c.is_connected ≡ false
    → IsConsistent (schedule_reconnect drawn c) × GoesOn (schedule_reconnect drawn c)
unfolding schedule_reconnect
schedule_reconnect-IsConsistent drawn c i off =
    let j = jitter-lt drawn c.reconnect_delay_ms i.paced.1 in
    (
      record {
        quiet = ground (arith, i.quiet, off);
        watched = ground (arith, i.watched, off);
        settled = ground (arith, i.settled, off);
        paced = ground (arith, i.paced);
        soon = ground (arith, i.soon, i.paced, j);
      },
      ground arith,
    )

-- A consistent connection that goes on.
pub record IsArmed (c : Connection) : Type 0 where
  pub consistent : IsConsistent c
  pub goes_on : GoesOn c

rescheduled :
    (drawn : ℕ) (c : Connection)
    → IsConsistent c
    → c.is_connected ≡ false
    → IsArmed (schedule_reconnect drawn c)
rescheduled drawn c i off =
    let (consistent, goes_on) = schedule_reconnect-IsConsistent drawn c i off in
    record { consistent = consistent; goes_on = goes_on }

connection_lost-IsArmed :
    (drawn : ℕ) (c : Connection) → IsArmed c → IsArmed (connection_lost drawn c)
unfolding connection_lost
connection_lost-IsArmed drawn c i =
    if_holds IsArmed c.stopping (λ h. i)
      (λ h.
        rescheduled drawn _
          (record {
            quiet = ground (arith, h);
            watched = refl;
            settled = ground arith;
            paced = i.consistent.paced;
            soon = i.consistent.soon;
          })
          refl)

lose_if-IsArmed :
    (drawn : ℕ) (test : Bool) (c : Connection) → IsArmed c → IsArmed (lose_if drawn test c)
unfolding lose_if
lose_if-IsArmed drawn true c i = connection_lost-IsArmed drawn c i
lose_if-IsArmed drawn false c i = i

ubus_fd_ready-IsArmed :
    (drawn : ℕ) (condition : Condition) (c : Connection)
    → IsArmed c
    → IsArmed (ubus_fd_ready drawn condition c)
unfolding ubus_fd_ready
ubus_fd_ready-IsArmed drawn condition c i =
    if_holds IsArmed (c.stopping || not c.is_connected) (λ h. i)
      (λ h. lose_if-IsArmed drawn _ _ (lose_if-IsArmed drawn _ _ (lose_if-IsArmed drawn _ c i)))

connect_or_retry-IsArmed :
    (drawn : ℕ) (attempt : Attempt) (c : Connection)
    → IsConsistent c
    → c.is_connected ≡ false
    → c.stopping ≡ false
    → c.reconnect_source ≡ none
    → IsArmed (connect_or_retry drawn attempt c)
unfolding connect_ubus
connect_or_retry-IsArmed drawn attempt c i off on free = elim (Bool-cases attempt.connects) [
  | inr e ↦ rw e (rescheduled drawn c i off)
  | inl e ↦ elim (Bool-cases attempt.publishes) [
    | inr f ↦
        rw (e, f)
          (rescheduled drawn _
            (record {
              quiet = i.quiet;
              watched = i.watched;
              settled = ground (arith, off);
              paced = i.paced;
              soon = i.soon;
            })
            off)
    | inl f ↦
        rw (e, f)
          (record {
            consistent = record {
              quiet = ground (arith, on);
              watched = refl;
              settled = λ h. (refl, free);
              paced = (omega arith, omega arith);
              soon = i.soon;
            };
            goes_on = inl refl;
          })
  ]
]

reconnect_cb-IsArmed :
    (drawn : ℕ) (attempt : Attempt) (c : Connection)
    → IsArmed c
    → is_set c.reconnect_source ≡ true
    → IsArmed (reconnect_cb drawn attempt c)
unfolding reconnect_cb
reconnect_cb-IsArmed drawn attempt c i armed =
    let off : c.is_connected ≡ false = ground (arith, i.consistent.settled, armed) in
    let on : c.stopping ≡ false = ground (arith, i.consistent.quiet, armed) in
    if_holds IsArmed c.stopping (λ h. absurd (ground (arith, h, on)))
      (λ h.
        connect_or_retry-IsArmed drawn attempt (record c { reconnect_source = none })
          (record {
            quiet = ground (arith, on);
            watched = i.consistent.watched;
            settled = ground (arith, off);
            paced = i.consistent.paced;
            soon = refl;
          })
          off on refl)

ubus_start-IsArmed :
    (drawn : ℕ) (attempt : Attempt) (c : Connection)
    → IsConsistent c
    → IsArmed (ubus_start drawn attempt c)
unfolding ubus_start
ubus_start-IsArmed drawn attempt c i =
    if_holds IsArmed (c.stopping || c.is_connected || is_set c.reconnect_source)
      (λ h. record { consistent = i; goes_on = ground (arith, h) })
      (λ h.
        connect_or_retry-IsArmed drawn attempt c i (ground (arith, h)) (ground (arith, h))
          (ground (arith, h)))

ubus_stop-IsArmed : (c : Connection) → IsArmed c → IsArmed (ubus_stop c)
unfolding ubus_stop
ubus_stop-IsArmed c i =
    if_holds IsArmed c.stopping (λ h. i)
      (λ h. record {
        consistent = record {
          quiet = λ e. (refl, refl);
          watched = refl;
          settled = ground arith;
          paced = i.consistent.paced;
          soon = refl;
        };
        goes_on = inr (inl refl);
      })

react-IsArmed : (c : Connection) (e : Event) → IsArmed c → IsArmed (react c e)
unfolding react
react-IsArmed c (starts drawn attempt) i = ubus_start-IsArmed drawn attempt c i.consistent
react-IsArmed c (loses drawn) i = connection_lost-IsArmed drawn c i
react-IsArmed c (reports drawn condition) i = ubus_fd_ready-IsArmed drawn condition c i
react-IsArmed c (retries drawn attempt) i =
    if_holds IsArmed (is_set c.reconnect_source) (λ h. reconnect_cb-IsArmed drawn attempt c i h)
      (λ h. i)
react-IsArmed c stops i = ubus_stop-IsArmed c i

reacts-IsArmed : (c : Connection) (es : List Event) → IsArmed c → IsArmed (reacts c es)
unfolding reacts
reacts-IsArmed c [] i = i
reacts-IsArmed c (e ∷ es) i = reacts-IsArmed (react c e) es (react-IsArmed c e i)

unconnected-IsConsistent : IsConsistent unconnected
unconnected-IsConsistent = record {
  quiet = ground arith;
  watched = refl;
  settled = ground arith;
  paced = (omega arith, omega arith);
  soon = refl;
}

-- Once the service was started, whatever happens to its connection, IsArmed holds: it is connected,
-- or stopping, or a retry is armed, never two of connected and armed; its descriptor is watched
-- exactly while it is connected; a stopping service is neither connected nor armed; the next delay
-- stays between 250 and 30,000 milliseconds, and an armed one is at most 36,000.
pub start-IsArmed :
    (drawn : ℕ) (attempt : Attempt) (es : List Event)
    → IsArmed (reacts (ubus_start drawn attempt unconnected) es)
start-IsArmed drawn attempt es =
    reacts-IsArmed (ubus_start drawn attempt unconnected) es
      (ubus_start-IsArmed drawn attempt unconnected unconnected-IsConsistent)
