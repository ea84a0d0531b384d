-- ===== src/Heartbeat/Silence.antt =====
-- The client's end of the heartbeat while the server answers, and once it does not.
use mathlib.Core.List.{append-nil}
use ezvpn.Prelude.{
  ℕ, zero, suc, ◌+◌, ◌*◌, ◌≤◌, ◌<◌, ◌≡◌, refl, ap, sym, ◌∙◌, Bool, true, false, List, [], ◌∷◌, ◌++◌,
  length, All, arith, Bool-cases, inl, inr,
}
use ezvpn.Heartbeat.{
  heartbeat_interval, heartbeat_timeout, Event, tick, replied, running, timed_out, is_due, on_event,
  heartbeat_loop, run_heartbeat,
}

-- Pings, each answered after its delay, from the `k`th on.
abbrev pub answered : ℕ → List ℕ → List (ℕ × Event)
answered k [] = []
answered k (delay ∷ delays) =
    (k * heartbeat_interval, tick true)
    ∷ (k * heartbeat_interval + delay, replied)
    ∷ answered (suc k) delays

-- Pings that are not answered.
abbrev pub unanswered : ℕ → ℕ → List (ℕ × Event)
unanswered k zero = []
unanswered k (suc n) = (k * heartbeat_interval, tick true) ∷ unanswered (suc k) n

-- The time of the last answer, or of the start.
abbrev pub last_reply : ℕ → ℕ → List ℕ → ℕ
last_reply before k [] = before
last_reply before k (delay ∷ delays) = last_reply (k * heartbeat_interval + delay) (suc k) delays

last_reply-le :
    (before k : ℕ) (delays : List ℕ)
    → before ≤ k * heartbeat_interval
    → All (λ delay. delay ≤ heartbeat_interval) delays
    → last_reply before k delays ≤ (k + length delays) * heartbeat_interval
last_reply-le before k [] h short = omega arith
last_reply-le before k (delay ∷ delays) h short = omega (
  arith,
  last_reply-le (k * heartbeat_interval + delay) (suc k) delays (omega (arith, short.0)) short.1,
)

module _ (chosen : ℕ → Bool) where
  early : (deadline time : ℕ) → time < deadline → is_due chosen deadline time ≡ false
  unfolding is_due
  early deadline time h = ground arith

  answered_loop :
      (k before seq : ℕ) (delays : List ℕ) (rest : List (ℕ × Event))
      → suc k * heartbeat_interval < before + heartbeat_timeout
      → All (λ delay. delay ≤ heartbeat_interval) delays
      → heartbeat_loop chosen (before + heartbeat_timeout) seq (answered k delays ++ rest)
        ≡ heartbeat_loop chosen
            (last_reply before k delays + heartbeat_timeout)
            (seq + length delays)
            rest
  unfolding heartbeat_loop on_event
  answered_loop k before seq [] rest h short =
      ap (λ s. heartbeat_loop chosen (before + heartbeat_timeout) s rest) (omega arith)
  answered_loop k before seq (delay ∷ delays) rest h short =
      rw
        (
          early (before + heartbeat_timeout) (k * heartbeat_interval) (omega arith),
          early (before + heartbeat_timeout) (k * heartbeat_interval + delay)
              (omega (arith, short.0)),
        )
        (answered_loop (suc k) (k * heartbeat_interval + delay) (seq + 1) delays rest (omega arith)
            short.1
          ∙ ap
              (λ s.
                heartbeat_loop chosen
                  (last_reply (k * heartbeat_interval + delay) (suc k) delays + heartbeat_timeout) s
                  rest)
              (omega arith))

  unanswered_loop :
      (n k deadline seq : ℕ)
      → deadline < (k + n) * heartbeat_interval
      → (heartbeat_loop chosen deadline seq (unanswered k (suc n))).0 ≡ timed_out deadline
  unfolding heartbeat_loop on_event is_due
  unanswered_loop zero k deadline seq h = ground arith
  unanswered_loop (suc n) k deadline seq h =
      elim (Bool-cases (is_due chosen deadline (k * heartbeat_interval))) [
        | inl due ↦ rw due refl
        | inr waits ↦ rw waits (unanswered_loop n (suc k) deadline (seq + 1) (omega arith))
      ]

  -- While each ping is answered within an interval, the client sends every ping and goes on. Once the
  -- answers stop, it gives up 30 seconds after the last of them, or after the start, at the fifth
  -- ping without an answer or before.
  pub heartbeat_ends :
      (delays : List ℕ) (n : ℕ)
      → All (λ delay. delay ≤ heartbeat_interval) delays
      → 5 ≤ n
      → (run_heartbeat chosen (answered 0 delays) ≡ (running, length delays))
        × ((run_heartbeat chosen (answered 0 delays ++ unanswered (length delays) n)).0
            ≡ timed_out (last_reply 0 0 delays + heartbeat_timeout))
  unfolding run_heartbeat
  heartbeat_ends delays zero short enough = absurd (omega arith)
  heartbeat_ends delays (suc n) short enough = (
    ap (heartbeat_loop chosen heartbeat_timeout 0) (sym (append-nil (answered 0 delays)))
        ∙ answered_loop 0 0 0 delays [] (omega arith) short
        ∙ unfold heartbeat_loop in ap (λ (s : ℕ). (running, s)) (omega arith),
    ap (λ r. r.0)
          (answered_loop 0 0 0 delays (unanswered (length delays) (suc n)) (omega arith) short)
        ∙ unanswered_loop n (length delays) (last_reply 0 0 delays + heartbeat_timeout)
            (0 + length delays) (omega (arith, last_reply-le 0 0 delays (omega arith) short)),
  )
