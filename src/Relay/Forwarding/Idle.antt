-- ===== src/Relay/Forwarding/Idle.antt =====
-- How long a relay lasts without data (`relay` of src/relay_server/connection.rs).
use openuu_server.Prelude.{
  ℕ, ◌+◌, ◌-◌, ◌/◌, ◌<◌, String, true, false, List, [], ◌∷◌, ◌≡◌, refl, ap, ◌∙◌, arith, inl, inr,
  subst, Bool-cases, ltb,
}
use openuu_server.Relay.Forwarding.{
  Relaying, Select, received, ended, ticked, Event, running, charge, selected, then_measure, relay,
}
use openuu_server.Relay.Forwarding.Delivery.{Goes, weaken-Goes, turn-Goes, rest-Goes}

abbrev heard : Event → Select → ℕ → ℕ
heard e (received from bytes ok) last = e.at
heard e (ended from) last = last
heard e ticked last = last

abbrev TimelyAt : Event → Select → ℕ → Type 0
TimelyAt e (received from bytes ok) last = Unit
TimelyAt e (ended from) last = Unit
TimelyAt e ticked last = e.at < last + 31000

-- At each tick of the timer, the last data came less than 31 seconds before.
abbrev pub Timely : List Event → ℕ → Type 0
Timely [] last = Unit
Timely (e ∷ events) last = TimelyAt e e.select last × Timely events (heard e e.select last)

-- the time when data last came
abbrev pub last_heard : List Event → ℕ → ℕ
last_heard [] last = last
last_heard (e ∷ events) last = last_heard events (heard e e.select last)

selected-TimelyAt :
    (e : Event) (a : Select) (s : Relaying)
    → Goes
        (λ s'. (s'.last_recv_time ≡ heard e a s.last_recv_time) × TimelyAt e a s.last_recv_time)
        (selected e a s)
unfolding selected charge
selected-TimelyAt e (received from [] ok) s = (refl, tt)
selected-TimelyAt e (received from (x ∷ bytes) true) s = (refl, tt)
selected-TimelyAt e (received from (x ∷ bytes) false) s = tt
selected-TimelyAt e (ended from) s = tt
selected-TimelyAt e ticked s = elim (Bool-cases (ltb 30 ((e.at - s.last_recv_time) / 1000))) [
  | inl late ↦ rw late tt
  | inr timely ↦ rw timely (refl, ground (arith, timely))
]

module _ (id : String) (threshold : ℕ) where
  abbrev Heard : List Event → Relaying → Relaying → Type 0
  Heard events s s' =
      (s'.last_recv_time ≡ last_heard events s.last_recv_time) × Timely events s.last_recv_time

  relay-Timely :
      (events : List Event) (s : Relaying) → Goes (Heard events s) (relay id threshold events s)
  unfolding relay
  relay-Timely [] s = (refl, tt)
  relay-Timely (e ∷ events) s =
      let P = λ (s' : Relaying).
        (s'.last_recv_time ≡ heard e e.select s.last_recv_time)
        × TimelyAt e e.select s.last_recv_time in
      rest-Goes id threshold P (Heard (e ∷ events) s) (λ s'. relay id threshold events s')
        (then_measure id threshold e (selected e e.select s))
        (λ s' (now, timely).
          weaken-Goes (Heard events s') (Heard (e ∷ events) s) (relay id threshold events s')
            (λ s'' (later, rest).
              (later ∙ ap (last_heard events) now, (timely, subst (Timely events) now rest)))
            (relay-Timely events s'))
        (turn-Goes id threshold P e (selected e e.select s) (
          weaken-Goes P
            (λ s'.
              (s'' : Relaying)
              → s''.sent ≡ s'.sent
              → s''.total ≡ s'.total
              → s''.last_recv_time ≡ s'.last_recv_time
              → P s'')
            (selected e e.select s) (λ s' (now, timely) s'' _ _ same. (same ∙ now, timely))
            (selected-TimelyAt e e.select s)))

  -- A relay that runs heard from one of its sides less than 31 seconds before each tick of its timer:
  -- a silent pair is dropped at the first tick after that.
  pub relay_idle :
      (events : List Event) (s s' : Relaying)
      → relay id threshold events s ≡ (running, s')
      → Timely events s.last_recv_time
  relay_idle events s s' h = (subst (Goes (Heard events s)) h (relay-Timely events s)).1
