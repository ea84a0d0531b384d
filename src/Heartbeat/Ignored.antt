-- ===== src/Heartbeat/Ignored.antt =====
-- The server's end of the heartbeat: which frames count.
use mathlib.Core.Path.{fun_ext}
use ezvpn.Prelude.{
  ℕ, ◌≤◌, ◌<◌, ◌≡◌, refl, ap, sym, ◌∙◌, Bool, true, false, List, [], ◌∷◌, ◌++◌, ltb, keep_if,
  keep_if-true, keep_if-false, arith, lt→ltb, ltb→lt, ◌⊎◌, Bool-cases, inl, inr, Bytes, some,
}
use ezvpn.Error.{Result, ok, err}
use ezvpn.Stream.Control.{Frame, ping, pong, server_addrs, classify}
use ezvpn.Heartbeat.{
  heartbeat_timeout, Arrival, body, finished, broken, heartbeat_timed_out, Answer, on_frame,
  on_arrival, responder_loop, run_heartbeat_responder,
}

is_ping_frame : Result Frame → Bool
is_ping_frame (ok (ping seq)) = true
is_ping_frame (ok (pong seq)) = false
is_ping_frame (ok (server_addrs addrs)) = false
is_ping_frame (err e) = false

-- Pings, and the end of the stream.
unfoldable pub counts : ℕ × Arrival → Bool
unfolding is_ping_frame
counts (time, body room bytes) = is_ping_frame (classify bytes)
counts (time, finished) = true
counts (time, broken) = true

-- Times do not go back.
abbrev pub IsOrdered : ℕ → List (ℕ × Arrival) → Type 0
IsOrdered now [] = Unit
IsOrdered now ((time, arrival) ∷ arrivals) = (now ≤ time) × IsOrdered time arrivals

skipped :
    (time : ℕ) (room : Bool) (bytes : Bytes) (deadline : ℕ) (continue : ℕ → Answer)
    → counts (time, body room bytes) ≡ false
    → on_arrival time (body room bytes) deadline continue ≡ continue deadline
unfolding counts on_arrival on_frame
skipped time room bytes deadline continue h = other (classify bytes) h
  where
    other :
        (r : Result Frame)
        → is_ping_frame r ≡ false
        → on_frame time room r deadline continue ≡ continue deadline
    other (ok (ping seq)) e = cc
    other (ok (pong seq)) e = refl
    other (ok (server_addrs addrs)) e = refl
    other (err problem) e = refl

cut :
    (deadline time : ℕ) (arrival : Arrival) (arrivals : List (ℕ × Arrival))
    → deadline < time
    → responder_loop deadline ((time, arrival) ∷ arrivals)
      ≡ (some (deadline, heartbeat_timed_out), [])
unfolding responder_loop
cut deadline time arrival arrivals h = rw (lt→ltb deadline time h) refl

step :
    (deadline time : ℕ) (arrival : Arrival) (arrivals : List (ℕ × Arrival))
    → ltb deadline time ≡ false
    → responder_loop deadline ((time, arrival) ∷ arrivals)
      ≡ on_arrival time arrival deadline (λ d. responder_loop d arrivals)
unfolding responder_loop
step deadline time arrival arrivals h = rw h refl

-- Past the deadline, an arrival that is left out changes nothing.
late :
    (deadline time : ℕ) (arrivals : List (ℕ × Arrival)) (last : ℕ × Arrival)
    → deadline < time
    → IsOrdered time (arrivals ++ last ∷ [])
    → responder_loop deadline (keep_if counts arrivals ++ last ∷ [])
      ≡ (some (deadline, heartbeat_timed_out), [])
late deadline time [] (t, arrival) h o = cut deadline t arrival [] (omega (arith, o.0))
late deadline time ((t, arrival) ∷ arrivals) last h o = elim (Bool-cases (counts (t, arrival))) [
  | inl kept ↦
      rw (keep_if-true counts (t, arrival) arrivals kept)
        (cut deadline t arrival (keep_if counts arrivals ++ last ∷ []) (omega (arith, o.0)))
  | inr dropped ↦
      rw (keep_if-false counts (t, arrival) arrivals dropped)
        (late deadline t arrivals last (omega (arith, o.0)) o.1)
]

on_arrival-cong :
    (time : ℕ) (arrival : Arrival) (deadline : ℕ) (f g : ℕ → Answer)
    → ((d : ℕ) → f d ≡ g d)
    → on_arrival time arrival deadline f ≡ on_arrival time arrival deadline g
on_arrival-cong time arrival deadline f g h = ap (on_arrival time arrival deadline) (fun_ext h)

loop-keep_if :
    (arrivals : List (ℕ × Arrival)) (last : ℕ × Arrival) (now deadline : ℕ)
    → IsOrdered now (arrivals ++ last ∷ [])
    → responder_loop deadline (arrivals ++ last ∷ [])
      ≡ responder_loop deadline (keep_if counts arrivals ++ last ∷ [])
loop-keep_if [] last now deadline o = refl
loop-keep_if ((time, arrival) ∷ arrivals) last now deadline o =
    elim (Bool-cases (ltb deadline time)) [
      | inl over ↦
          cut deadline time arrival (arrivals ++ last ∷ []) (ltb→lt deadline time over)
          ∙ sym (
              late deadline time ((time, arrival) ∷ arrivals) last (ltb→lt deadline time over)
                (omega arith, o.1))
      | inr room ↦
          step deadline time arrival (arrivals ++ last ∷ []) room
          ∙ on_arrival-cong time arrival deadline (λ d. responder_loop d (arrivals ++ last ∷ []))
              (λ d. responder_loop d (keep_if counts arrivals ++ last ∷ []))
              (λ d. loop-keep_if arrivals last time d o.1)
          ∙ kept arrival room (Bool-cases (counts (time, arrival)))
    ]
  where
    kept :
        (arrival' : Arrival)
        → ltb deadline time ≡ false
        → (counts (time, arrival') ≡ true) ⊎ (counts (time, arrival') ≡ false)
        → on_arrival time arrival' deadline
            (λ d. responder_loop d (keep_if counts arrivals ++ last ∷ []))
          ≡ responder_loop deadline (keep_if counts ((time, arrival') ∷ arrivals) ++ last ∷ [])
    kept arrival' room (inl e) =
        rw (keep_if-true counts (time, arrival') arrivals e)
          (sym (step deadline time arrival' (keep_if counts arrivals ++ last ∷ []) room))
    kept (body queue bytes) room (inr e) =
        rw (keep_if-false counts (time, body queue bytes) arrivals e)
          (skipped time queue bytes deadline _ e)
    kept finished room (inr e) = absurd (unfold counts in cc e)
    kept broken room (inr e) = absurd (unfold counts in cc e)

-- Only pings count: up to the last arrival, whose time is the latest, the frames that are no pings
-- change neither when and why the server closes the connection nor what it answers.
pub responder-keep_if :
    (arrivals : List (ℕ × Arrival)) (last : ℕ × Arrival)
    → IsOrdered 0 (arrivals ++ last ∷ [])
    → run_heartbeat_responder (arrivals ++ last ∷ [])
      ≡ run_heartbeat_responder (keep_if counts arrivals ++ last ∷ [])
unfolding run_heartbeat_responder
responder-keep_if arrivals last o = loop-keep_if arrivals last 0 heartbeat_timeout o
