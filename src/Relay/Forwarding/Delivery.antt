-- ===== src/Relay/Forwarding/Delivery.antt =====
-- What a relay delivers and counts (`relay` of src/relay_server/connection.rs).
use openuu_server.Prelude.{
  ℕ, ◌+◌, ◌-◌, ◌*◌, ◌/◌, ◌%◌, ◌^◌, ◌<◌, String, true, false, List, [], ◌∷◌, ◌≡◌, refl, ap, ◌∙◌,
  arith, inl, inr, Bool-cases, ltb, subst, length, Bytes,
}
use openuu_server.Relay.Forwarding.{
  Side, Relaying, Select, received, ended, ticked, Event, Outcome, running, closed, timed_out,
  send_failed, other, charge, selected, measure, then_measure, then_relay, relay,
}

abbrev forwarded : Select → List (Side × Bytes) → List (Side × Bytes)
forwarded (received from [] ok) sent = sent
forwarded (received from (b ∷ bytes) ok) sent = (other from, b ∷ bytes) ∷ sent
forwarded (ended from) sent = sent
forwarded ticked sent = sent

-- All that came from either side, in order and with its receiver, before what was sent (the last
-- first).
abbrev pub all_forwarded : List Event → List (Side × Bytes) → List (Side × Bytes)
all_forwarded [] sent = sent
all_forwarded (e ∷ events) sent = all_forwarded events (forwarded e.select sent)

abbrev received_bytes : Select → ℕ
received_bytes (received from bytes ok) = length bytes
received_bytes (ended from) = 0
received_bytes ticked = 0

abbrev pub all_bytes : List Event → ℕ
all_bytes [] = 0
all_bytes (e ∷ events) = received_bytes e.select + all_bytes events

-- A property of the state of a relay that goes on.
abbrev pub Goes : (Relaying → Type 0) → Outcome × Relaying → Type 0
Goes P (running, s) = P s
Goes P (closed, s) = Unit
Goes P (timed_out, s) = Unit
Goes P (send_failed, s) = Unit

pub weaken-Goes :
    (P Q : Relaying → Type 0) (r : Outcome × Relaying)
    → ((s : Relaying) → P s → Q s)
    → Goes P r
    → Goes Q r
weaken-Goes P Q (running, s) f h = f s h
weaken-Goes P Q (closed, s) f h = tt
weaken-Goes P Q (timed_out, s) f h = tt
weaken-Goes P Q (send_failed, s) f h = tt

abbrev Delivers : Relaying → List (Side × Bytes) → ℕ → Relaying → Type 0
Delivers s sent n s' = (s'.sent ≡ sent) × (s'.total ≡ (s.total + 8 * n) % 2 ^ 64)

selected-Delivers :
    (e : Event) (a : Select) (s : Relaying)
    → s.total < 2 ^ 64
    → Goes (Delivers s (forwarded a s.sent) (received_bytes a)) (selected e a s)
unfolding selected charge
selected-Delivers e (received from [] ok) s b = (refl, omega arith)
selected-Delivers e (received from (x ∷ bytes) true) s b = (refl, omega arith)
selected-Delivers e (received from (x ∷ bytes) false) s b = tt
selected-Delivers e (ended from) s b = tt
selected-Delivers e ticked s b = elim (Bool-cases (ltb 30 ((e.at - s.last_recv_time) / 1000))) [
  | inl late ↦ rw late tt
  | inr timely ↦ rw timely (refl, omega arith)
]

module _ (id : String) (threshold : ℕ) where
  measure-Goes :
      (P : Relaying → Type 0) (e : Event) (s : Relaying)
      → ((s' : Relaying)
          → s'.sent ≡ s.sent
          → s'.total ≡ s.total
          → s'.last_recv_time ≡ s.last_recv_time
          → P s')
      → Goes P (measure id threshold e s)
  unfolding measure
  measure-Goes P e s f = elim (Bool-cases (ltb (e.checked - s.tm) 1000)) [
    | inl soon ↦ rw soon (f s refl refl refl)
    | inr due ↦ elim (Bool-cases e.blocklisted) [
      | inl blocked ↦ rw (due, blocked) tt
      | inr free ↦ rw (due, free) (f _ refl refl refl)
    ]
  ]

  -- If each turn that goes on takes one property to the next, then so does the loop.
  pub turn-Goes :
      (P : Relaying → Type 0) (e : Event) (r : Outcome × Relaying)
      → Goes
          (λ s.
            (s' : Relaying)
            → s'.sent ≡ s.sent
            → s'.total ≡ s.total
            → s'.last_recv_time ≡ s.last_recv_time
            → P s')
          r
      → Goes P (then_measure id threshold e r)
  turn-Goes P e (running, s) h = measure-Goes P e s h
  turn-Goes P e (closed, s) h = tt
  turn-Goes P e (timed_out, s) h = tt
  turn-Goes P e (send_failed, s) h = tt

  pub rest-Goes :
      (P Q : Relaying → Type 0) (rest : Relaying → Outcome × Relaying) (r : Outcome × Relaying)
      → ((s : Relaying) → P s → Goes Q (rest s))
      → Goes P r
      → Goes Q (then_relay rest r)
  rest-Goes P Q rest (running, s) f h = f s h
  rest-Goes P Q rest (closed, s) f h = tt
  rest-Goes P Q rest (timed_out, s) f h = tt
  rest-Goes P Q rest (send_failed, s) f h = tt

  relay-Delivers :
      (events : List Event) (s : Relaying)
      → s.total < 2 ^ 64
      → Goes
          (Delivers s (all_forwarded events s.sent) (all_bytes events))
          (relay id threshold events s)
  unfolding relay
  relay-Delivers [] s b = (refl, omega arith)
  relay-Delivers (e ∷ events) s b =
      let P = Delivers s (forwarded e.select s.sent) (received_bytes e.select) in
      rest-Goes P (Delivers s (all_forwarded (e ∷ events) s.sent) (all_bytes (e ∷ events)))
        (λ s'. relay id threshold events s') (then_measure id threshold e (selected e e.select s))
        (λ s' (sent, total).
          weaken-Goes (Delivers s' (all_forwarded events s'.sent) (all_bytes events))
            (Delivers s (all_forwarded (e ∷ events) s.sent) (all_bytes (e ∷ events)))
            (relay id threshold events s')
            (λ s'' (sent', total'). (sent' ∙ ap (all_forwarded events) sent, omega arith))
            (relay-Delivers events s' (omega arith)))
        (turn-Goes P e (selected e e.select s) (
          weaken-Goes P
            (λ s'.
              (s'' : Relaying)
              → s''.sent ≡ s'.sent
              → s''.total ≡ s'.total
              → s''.last_recv_time ≡ s'.last_recv_time
              → P s'')
            (selected e e.select s)
            (λ s' (sent, total) s'' same same' _. (same ∙ sent, same' ∙ total))
            (selected-Delivers e e.select s b)))

  -- While a relay runs, what either side sent has gone to the other, whole and in order, and `total`
  -- counts its bits modulo 2 ^ 64.
  pub relay_delivers :
      (events : List Event) (s s' : Relaying)
      → s.total < 2 ^ 64
      → relay id threshold events s ≡ (running, s')
      → (s'.sent ≡ all_forwarded events s.sent)
        × (s'.total ≡ (s.total + 8 * all_bytes events) % 2 ^ 64)
  relay_delivers events s s' b h =
      subst (Goes (Delivers s (all_forwarded events s.sent) (all_bytes events))) h
        (relay-Delivers events s b)
