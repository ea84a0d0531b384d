-- ===== src/Client/Reconnect.antt =====
-- src/tunnel/client.rs: `run_with_reconnect` and `calculate_backoff_with_rng`. The outcomes of the calls
-- of `connect` are a list; the loop stops where the list does, still connecting.
use ezvpn.Prelude.{
  ℕ, suc, ◌+◌, ◌-◌, ◌*◌, ◌^◌, ◌≤◌, ◌<◌, ◌≡◌, refl, Bool, true, false, Option, none, some, List, [],
  ◌∷◌, map, ltb, leb, if◌then◌else◌, length, min, arith, All, ◌⊎◌, inl, inr, subst, Bool-cases,
  leb→le,
}
use ezvpn.Error.{
  VpnError, Result, ok, err, is_recoverable, connection_lost, max_reconnect_attempts_exceeded,
}

abbrev pub u32_max : ℕ
u32_max = 4294967295

abbrev pub u64_max : ℕ
u64_max = 18446744073709551615

abbrev pub backoff_base_ms : ℕ
backoff_base_ms = 1000

abbrev pub backoff_max_ms : ℕ
backoff_max_ms = 60000

-- The delay of an attempt, with the jitter that was drawn.
unfoldable pub calculate_backoff : ℕ → ℕ → ℕ
calculate_backoff attempt jitter_ms =
    let multiplier = min (2 ^ (attempt - 1)) u64_max in
    let base_delay_ms = min (backoff_base_ms * multiplier) u64_max in
    min (min (base_delay_ms + jitter_ms) u64_max) backoff_max_ms

unfoldable pub was_up : VpnError → Bool
was_up (connection_lost m) = true
was_up _ = false

-- The failures counted after an error.
unfoldable pub next_failures : VpnError → ℕ → ℕ
next_failures e failures = min ((if was_up e then 0 else failures) + 1) u32_max

unfoldable pub exceeds : Option ℕ → ℕ → Option ℕ
exceeds none failures = none
exceeds (some max) failures = if ltb max failures then some max else none

-- What the loop does after an error.
pub data Next : Type 0 where
  stop : VpnError → Next
  retry : ℕ → Next

unfoldable pub on_error : Option ℕ → ℕ → VpnError → Next
on_error max_attempts failures e =
    if is_recoverable e
    then elim (exceeds max_attempts (next_failures e failures)) [
      | some max ↦ stop (max_reconnect_attempts_exceeded max)
      | none ↦ retry (next_failures e failures)
    ]
    else stop e

unfoldable pub after :
    Next → (ℕ → Option (Result (Unit {0})) × List ℕ) → Option (Result (Unit {0})) × List ℕ
after (stop e) continue = (some (err e), [])
after (retry n) continue = let (result, waits) = continue n in (result, n ∷ waits)

-- The result, where the loop returns, and the attempts that were waited for.
unfoldable pub run_with_reconnect :
    Option ℕ → ℕ → List (Result (Unit {0})) → Option (Result (Unit {0})) × List ℕ
run_with_reconnect max_attempts failures [] = (none, [])
run_with_reconnect max_attempts failures (ok t ∷ rest) = (some (ok tt), [])
run_with_reconnect max_attempts failures (err e ∷ rest) =
    after (on_error max_attempts failures e) (λ n. run_with_reconnect max_attempts n rest)

-- The saturating arithmetic never shows: the delay doubles from a second, with the jitter added,
-- up to a minute.
pub calculate_backoff_lem :
    (attempt jitter_ms : ℕ)
    → calculate_backoff attempt jitter_ms ≡ min (1000 * 2 ^ (attempt - 1) + jitter_ms) 60000
unfolding calculate_backoff
calculate_backoff_lem attempt jitter_ms = omega arith

-- Errors that a retry may help and that no tunnel that was up has left.
abbrev pub Transient : VpnError → Type 0
Transient e = (is_recoverable e ≡ true) × (was_up e ≡ false)

on_error-Transient :
    (max failures : ℕ) (e : VpnError)
    → max < u32_max
    → failures ≤ max
    → Transient e
    → on_error (some max) failures e ≡ (
        if leb (suc failures) max
        then retry (suc failures)
        else stop (max_reconnect_attempts_exceeded max))
unfolding on_error exceeds next_failures
on_error-Transient max failures e small below t = rw (t.0, t.1) (ground arith)

gives_up_from :
    (max failures : ℕ) (errors : List VpnError)
    → max < u32_max
    → failures ≤ max
    → All Transient errors
    → (run_with_reconnect (some max) failures (map err errors)).0 ≡ (
        if leb (failures + length errors) max
        then none
        else some (err (max_reconnect_attempts_exceeded max)))
unfolding run_with_reconnect after
gives_up_from max failures [] small below t = ground arith
gives_up_from max failures (e ∷ errors) small below t =
    rw (on_error-Transient max failures e small below t.0, after)
      elim (Bool-cases (leb (suc failures) max)) [
        | inl room ↦ rw room (
            subst
              (λ (n : ℕ).
                (run_with_reconnect (some max) (suc failures) (map err errors)).0
                ≡ (if leb n max then none else some (err (max_reconnect_attempts_exceeded max))))
              (omega arith)
              (gives_up_from max (suc failures) errors small (leb→le (suc failures) max room) t.1))
        | inr over ↦ rw over (ground arith)
      ]

-- In an outage the cap counts retries: with a cap of `max`, below the largest `u32`, a series of
-- failed attempts that a retry may help goes on while it has at most `max` of them, and ends with
-- the error of the cap at the next.
pub gives_up :
    (max : ℕ) (errors : List VpnError)
    → max < u32_max
    → All Transient errors
    → (run_with_reconnect (some max) 0 (map err errors)).0
      ≡ (if leb (length errors) max then none else some (err (max_reconnect_attempts_exceeded max)))
gives_up max errors small t =
    subst
      (λ (n : ℕ).
        (run_with_reconnect (some max) 0 (map err errors)).0
        ≡ (if leb n max then none else some (err (max_reconnect_attempts_exceeded max))))
      (omega arith) (gives_up_from max 0 errors small (omega arith) t)

-- A tunnel that came up ends the outage: from then on the loop does what it does after the first
-- failure of a fresh start, whatever the count was.
pub lost_resets :
    (max_attempts : Option ℕ) (failures : ℕ) (reason : _) (rest : List (Result (Unit {0})))
    → run_with_reconnect max_attempts failures (err (connection_lost reason) ∷ rest)
      ≡ run_with_reconnect max_attempts 0 (err (connection_lost reason) ∷ rest)
unfolding run_with_reconnect after on_error next_failures was_up is_recoverable
lost_resets max_attempts failures reason rest = refl

retry_below :
    (max failures : ℕ) (e : VpnError)
    → ((n : ℕ) × (n ≤ max) × (on_error (some max) failures e ≡ retry n))
      ⊎ ((e' : VpnError) × (on_error (some max) failures e ≡ stop e'))
unfolding on_error exceeds
retry_below max failures e = elim (Bool-cases (is_recoverable e)) [
  | inr fatal ↦ inr (e, ground (arith, fatal))
  | inl again ↦ elim (Bool-cases (ltb max (next_failures e failures))) [
    | inl over ↦ inr (max_reconnect_attempts_exceeded max, ground (arith, again, over))
    | inr room ↦ inl (next_failures e failures, ground (arith, room), ground (arith, again, room))
  ]
]

-- No wait is numbered past the cap, whatever the attempts come to.
pub waits_below :
    (max failures : ℕ) (outcomes : List (Result (Unit {0})))
    → All (λ n. n ≤ max) (run_with_reconnect (some max) failures outcomes).1
unfolding run_with_reconnect after
waits_below max failures [] = tt
waits_below max failures (ok t ∷ rest) = tt
waits_below max failures (err e ∷ rest) = elim (retry_below max failures e) [
  | inr (e', over) ↦ rw (over, after) tt
  | inl (n, below, again) ↦ rw (again, after) (below, waits_below max n rest)
]
