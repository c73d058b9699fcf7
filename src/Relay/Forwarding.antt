-- ===== src/Relay/Forwarding.antt =====
-- Forwarding between two paired connections: `relay` of src/relay_server/connection.rs. What the loop
-- waits for is an argument, as a list of events with the times (milliseconds of the monotonic clock)
-- at which the code reads the clock. `usize` has 64 bits.
pub mod Delivery
pub mod Idle
use openuu_server.Prelude.{
  ℕ, ◌+◌, ◌-◌, ◌*◌, ◌/◌, ◌%◌, ◌^◌, String, Bool, true, false, not, ◌&&◌, ◌||◌, List, [], ◌∷◌, ltb,
  leb, if◌then◌else◌, length, is_empty, Bytes, String_discrete,
}
use openuu_server.Prelude.Map.{insert}

-- (elapsed, total, highest, speed)
abbrev pub Usage : Type 0
Usage = ℕ × ℕ × ℕ × ℕ

-- `peer` waited at the relay, `stream` came second.
pub data Side : Type 0 where
  peer stream : Side

-- the limiter of the connection: its own, or the one for slow connections
pub data Limit : Type 0 where
  limiter blacklist_limiter : Limit

pub record Relaying : Type 0 where
  pub tm : ℕ
  pub elapsed : ℕ
  pub total : ℕ
  pub total_s : ℕ
  pub highest_s : ℕ
  pub downgrade : Bool
  pub blacked : Bool
  pub last_recv_time : ℕ
  -- what was sent, with its receiver, and what was charged; the last first
  pub sent : List (Side × Bytes)
  pub consumed : List (Limit × ℕ)
  -- USAGE
  pub usage : List (String × Usage)

pub data Select : Type 0 where
  -- from one side, and whether sending it to the other succeeds
  received : Side → Bytes → Bool → Select
  -- the end of one side, or its error
  ended : Side → Select
  ticked : Select

-- One turn of the loop: what happened and when, when the code looks at the clock after it, what the
-- lists and DOWNGRADE_START_CHECK then say, and when it resets `tm`.
pub record Event : Type 0 where
  pub select : Select
  pub at : ℕ
  pub checked : ℕ
  pub blocklisted : Bool
  pub blacklisted : Bool
  pub downgrade_start_check : ℕ
  pub reset : ℕ

-- `running` when the events are used up
pub data Outcome : Type 0 where
  running closed timed_out send_failed : Outcome

-- the state at the start of the loop
unfoldable pub begin : ℕ → ℕ → List (String × Usage) → Relaying
begin tm last_recv_time usage = record {
  tm = tm;
  elapsed = 0;
  total = 0;
  total_s = 0;
  highest_s = 0;
  downgrade = false;
  blacked = false;
  last_recv_time = last_recv_time;
  sent = [];
  consumed = [];
  usage = usage;
}

abbrev pub other : Side → Side
other peer = stream
other stream = peer

-- `consume` and the counters
unfoldable pub charge : ℕ → ℕ → Relaying → Relaying
charge at len s =
    let nb = len * 8 % 2 ^ 64 in
    record s {
      last_recv_time = at;
      consumed = (if s.blacked || s.downgrade then blacklist_limiter else limiter, nb) ∷ s.consumed;
      total = (s.total + nb) % 2 ^ 64;
      total_s = (s.total_s + nb) % 2 ^ 64;
    }

-- the arms of the select: how the loop ends there, or goes on
unfoldable pub selected : Event → Select → Relaying → Outcome × Relaying
unfolding charge
selected e (received from bytes ok) s =
    let s' = charge e.at (length bytes) s in
    if is_empty bytes
    then (running, s')
    else if ok
    then (running, record s' { sent = (other from, bytes) ∷ s'.sent })
    else (send_failed, s')
selected e (ended from) s = (closed, s)
selected e ticked s =
    if ltb 30 ((e.at - s.last_recv_time) / 1000) then (timed_out, s) else (running, s)

abbrev pub exceeds : ℕ → ℕ → ℕ → ℕ → Bool
exceeds start_check threshold elapsed total =
    ltb start_check elapsed && ltb (elapsed * threshold % 2 ^ 64) total

-- what follows the select, at most once a second: the blocklist, and the speed of the last interval
unfoldable pub measure : String → ℕ → Event → Relaying → Outcome × Relaying
measure id threshold e s =
    let n = e.checked - s.tm in
    let speed = s.total_s / n in
    let highest = if ltb s.highest_s speed then speed else s.highest_s in
    let elapsed = (s.elapsed + n) % 2 ^ 64 in
    if ltb n 1000 then (running, s) else if e.blocklisted then (closed, s) else (
      running,
      record s {
        tm = e.reset;
        elapsed = elapsed;
        total_s = 0;
        highest_s = highest;
        blacked = e.blacklisted;
        downgrade = s.downgrade || exceeds e.downgrade_start_check threshold elapsed s.total;
        usage = insert String_discrete id (elapsed, s.total, highest, speed) s.usage;
      },
    )

abbrev pub then_measure : String → ℕ → Event → Outcome × Relaying → Outcome × Relaying
then_measure id threshold e (running, s) = measure id threshold e s
then_measure id threshold e (closed, s) = (closed, s)
then_measure id threshold e (timed_out, s) = (timed_out, s)
then_measure id threshold e (send_failed, s) = (send_failed, s)

abbrev pub then_relay : (Relaying → Outcome × Relaying) → Outcome × Relaying → Outcome × Relaying
then_relay rest (running, s) = rest s
then_relay rest (closed, s) = (closed, s)
then_relay rest (timed_out, s) = (timed_out, s)
then_relay rest (send_failed, s) = (send_failed, s)

-- `id` names the connection in USAGE; `threshold` is `downgrade_threshold`, in bits per millisecond
unfoldable pub relay : String → ℕ → List Event → Relaying → Outcome × Relaying
unfolding selected measure
relay id threshold [] s = (running, s)
relay id threshold (e ∷ events) s =
    then_relay (λ s'. relay id threshold events s')
      (then_measure id threshold e (selected e e.select s))
