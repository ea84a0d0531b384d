-- ===== src/Heartbeat.antt =====
-- The two ends of the heartbeat: `run_heartbeat` of src/tunnel/client.rs and `run_heartbeat_responder`
-- of src/tunnel/server.rs. What happens to an end is a list of events with their times, in
-- milliseconds from its start, in their order; where the list ends it waits. A write takes no time.
pub mod Silence
pub mod Ignored
use ezvpn.Prelude.{
  ℕ, ◌+◌, Bool, true, false, not, ◌&&◌, ◌||◌, Option, none, some, List, [], ◌∷◌, ltb, nat_eq,
  if◌then◌else◌, Bytes,
}
use ezvpn.Error.{Result, ok, err}
use ezvpn.Stream.Control.{
  Frame, ping, pong, server_addrs, pong_type, classify, encode_heartbeat_frame,
}

abbrev pub heartbeat_interval : ℕ
heartbeat_interval = 10000

abbrev pub heartbeat_timeout : ℕ
heartbeat_timeout = 30000

-- The ticker, with whether its ping is written, and a pong.
pub data Event : Type 0 where
  tick : Bool → Event
  replied : Event

pub data End : Type 0 where
  running : End
  send_failed timed_out : ℕ → End

module _ (chosen : ℕ → Bool) where
  -- The timer ends the loop before an event that is later, and before one at its own time where
  -- `select!` does not choose the event.
  unfoldable pub is_due : ℕ → ℕ → Bool
  is_due deadline time = ltb deadline time || (nat_eq deadline time && not (chosen time))

  on_event : ℕ → Event → ℕ → ℕ → (ℕ → ℕ → End × ℕ) → End × ℕ
  on_event time (tick true) deadline seq continue = continue deadline (seq + 1)
  on_event time (tick false) deadline seq continue = (send_failed time, seq + 1)
  on_event time replied deadline seq continue = continue (time + heartbeat_timeout) seq

  -- The end, and the pings that were sent.
  unfoldable pub heartbeat_loop : ℕ → ℕ → List (ℕ × Event) → End × ℕ
  unfolding on_event
  heartbeat_loop deadline seq [] = (running, seq)
  heartbeat_loop deadline seq ((time, event) ∷ events) =
      let rest = on_event time event deadline seq (λ d s. heartbeat_loop d s events) in
      if is_due deadline time then (timed_out deadline, seq) else rest

  unfoldable pub run_heartbeat : List (ℕ × Event) → End × ℕ
  run_heartbeat events = heartbeat_loop heartbeat_timeout 0 events

-- What `read_frame` gives. With a frame, whether the queue of the control stream has room for an
-- answer to it.
pub data Arrival : Type 0 where
  body : Bool → Bytes → Arrival
  finished broken : Arrival

pub data Close : Type 0 where
  stream_finished stream_error heartbeat_timed_out : Close

-- When and why the connection is closed, and the frames that are queued for the client.
abbrev pub Answer : Type 0
Answer = Option (ℕ × Close) × List Bytes

on_frame : ℕ → Bool → Result Frame → ℕ → (ℕ → Answer) → Answer
on_frame time room (ok (ping seq)) deadline continue =
    let (end, pongs) = continue (time + heartbeat_timeout) in
    let queued = encode_heartbeat_frame pong_type seq ∷ pongs in
    (end, if room then queued else pongs)
on_frame time room (ok (pong seq)) deadline continue = continue deadline
on_frame time room (ok (server_addrs addrs)) deadline continue = continue deadline
on_frame time room (err e) deadline continue = continue deadline

on_arrival : ℕ → Arrival → ℕ → (ℕ → Answer) → Answer
on_arrival time (body room bytes) deadline continue =
    on_frame time room (classify bytes) deadline continue
on_arrival time finished deadline continue = (some (time, stream_finished), [])
on_arrival time broken deadline continue = (some (time, stream_error), [])

-- `timeout_at` looks at the stream first.
unfoldable pub responder_loop : ℕ → List (ℕ × Arrival) → Answer
unfolding on_arrival on_frame
responder_loop deadline [] = (none, [])
responder_loop deadline ((time, arrival) ∷ arrivals) =
    let rest = on_arrival time arrival deadline (λ d. responder_loop d arrivals) in
    if ltb deadline time then (some (deadline, heartbeat_timed_out), []) else rest

unfoldable pub run_heartbeat_responder : List (ℕ × Arrival) → Answer
run_heartbeat_responder arrivals = responder_loop heartbeat_timeout arrivals
