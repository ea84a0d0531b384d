-- ===== src/Error.antt =====
-- src/error.rs: the errors of the program, with the constant text of their messages. A value that a
-- message shows is left out.
use Prim.Native.String.{String}
use ezvpn.Prelude.{◌≡◌, refl, ap, ℕ, Bool, true, false}

pub data VpnError : Type 0 where
  tun_device : String → VpnError
  network : String → VpnError
  config : String → VpnError
  signaling : String → VpnError
  authentication_failed : String → VpnError
  ip_assignment : String → VpnError
  connection_lost : String → VpnError
  max_reconnect_attempts_exceeded : ℕ → VpnError
  server_config_changed : String → VpnError
  route_overlaps_local_network : String → VpnError

pub data Result {ℓ} (A : Type ℓ) : Type ℓ where
  ok : A → Result A
  err : VpnError → Result A

-- Fail with `e` where the test holds.
abbrev pub reject_if : Bool → VpnError → Result (Unit {0})
reject_if true e = err e
reject_if false e = ok tt

-- Whether a reconnect may help.
unfoldable pub is_recoverable : VpnError → Bool
is_recoverable (tun_device m) = false
is_recoverable (network m) = true
is_recoverable (config m) = false
is_recoverable (signaling m) = true
is_recoverable (authentication_failed m) = false
is_recoverable (ip_assignment m) = false
is_recoverable (connection_lost m) = true
is_recoverable (max_reconnect_attempts_exceeded n) = false
is_recoverable (server_config_changed m) = false
is_recoverable (route_overlaps_local_network m) = false

infixl 5 ◌>>=◌ ◌>>◌
abbrev pub ◌>>=◌ {ℓ κ} : {T : Type ℓ} {U : Type κ} → Result T → (T → Result U) → Result U
err problem >>= next = err problem
ok value >>= next = next value

abbrev pub ◌>>◌ {ℓ} : {U : Type ℓ} → Result (Unit {0}) → Result U → Result U
first >> second = first >>= λ _. second

value_or {ℓ} : {A : Type ℓ} → A → Result A → A
value_or d (ok a) = a
value_or d (err e) = d

pub ok-injective {ℓ} : {A : Type ℓ} {a b : A} → ok a ≡ ok b → a ≡ b
unfolding value_or
ok-injective {a = a} h = ap (value_or a) h

-- What a `do` block that came to its end says of its first step.
pub >>=-eq-ok :
    {T U : Type 0} (step : Result T) (next : T → Result U) {last : U}
    → (step >>= next) ≡ ok last
    → (value : T) × (step ≡ ok value) × (next value ≡ ok last)
>>=-eq-ok (err problem) next came = cc
>>=-eq-ok (ok value) next came = (value, refl, came)

pub reject_if-eq-ok :
    {B : Type 0} (b : Bool) (e : _) (k : Result B) {r : B}
    → (reject_if b e >> k) ≡ ok r
    → (b ≡ false) × (k ≡ ok r)
reject_if-eq-ok true e k h = cc
reject_if-eq-ok false e k h = (refl, h)
