-- ===== src/Transport/PathSelector.antt =====
-- src/transport/path_selector.rs: the path that the client's connection takes. The transport's paths
-- are a parameter, with what the selector asks of them; a round trip time is in nanoseconds.
pub mod Choice
pub mod Switch
pub mod Decision
use ezvpn.Prelude.{
  ℕ, zero, suc, ◌+◌, ◌*◌, ◌≡◌, Bool, true, false, not, ◌&&◌, ◌||◌, Option, none, some, List, [],
  ◌∷◌, nat_eq, ltb, leb, any, if◌then◌else◌,
}
use ezvpn.IpNet.{IpAddr}

-- The `FourTuple` of a path: `remote_ip` is the canonical address of a direct path.
pub record PathOps (FourTuple : Type 0) : Type 0 where
  pub remote_ip : FourTuple → Option IpAddr
  pub is_ipv6 : FourTuple → Bool
  pub is_relay : FourTuple → Bool
  pub same : FourTuple → FourTuple → Bool

abbrev pub ipv6_rtt_advantage : ℕ
ipv6_rtt_advantage = 3000000

abbrev pub rtt_switching_min : ℕ
rtt_switching_min = 5000000

-- The tier and the biased time. The source subtracts the advantage of IPv6, in an `i128`; here the
-- other paths have it added, so that the time is a natural number and each difference is the same.
pub record Key : Type 0 where
  pub relay : Bool
  pub biased : ℕ

-- The order of pairs, `false` before `true`.
unfoldable pub key_lt : Key → Key → Bool
key_lt a b =
    not a.relay && b.relay
    || (a.relay && b.relay || not a.relay && not b.relay) && ltb a.biased b.biased

-- `is_none_or(|c| key < c)`
unfoldable pub better : Key → Option Key → Bool
better key none = true
better key (some c) = key_lt key c

-- The match on the key of the current path, once there is a best candidate.
unfoldable pub switch_to : ℕ → Key → Option Key → Option ℕ
switch_to best_idx best none = some best_idx
switch_to best_idx best (some current) =
    if current.relay && not best.relay || not current.relay && best.relay
    then some best_idx
    else if leb (best.biased + rtt_switching_min) current.biased
    then some best_idx
    else none

unfoldable pub chosen : Option (ℕ × Key) × Option Key → Option ℕ
chosen (none, current_key) = none
chosen (some (best_idx, best), current_key) = switch_to best_idx best current_key

module _ {FourTuple Net : Type 0} (ops : PathOps FourTuple) (contains : Net → IpAddr → Bool)
    (excluded : List Net) where
  excluded_ip : Option IpAddr → Bool
  excluded_ip none = false
  excluded_ip (some ip) = any (λ net. contains net ip) excluded

  unfoldable pub is_excluded : FourTuple → Bool
  unfolding excluded_ip
  is_excluded path = excluded_ip (ops.remote_ip path)

  unfoldable pub sort_key : FourTuple → ℕ → Key
  sort_key path rtt = record {
    relay = ops.is_relay path;
    biased = if ops.is_ipv6 path then rtt else rtt + ipv6_rtt_advantage;
  }

  -- `Some(path) == current`
  unfoldable pub is_current : Option FourTuple → FourTuple → Bool
  is_current none path = false
  is_current (some current) path = ops.same path current

  unfoldable pub key_of : Option (ℕ × Key) → Option Key
  key_of none = none
  key_of (some (i, key)) = some key

  -- The loop, from index `i`: the best candidate so far, and the key of the current path.
  unfoldable pub scan :
      Option FourTuple
      → ℕ
      → List (FourTuple × ℕ)
      → Option (ℕ × Key)
      → Option Key
      → Option (ℕ × Key) × Option Key
  scan current i [] best current_key = (best, current_key)
  scan current i ((path, rtt) ∷ rest) best current_key =
      let key : Key = sort_key path rtt in
      let best' : Option (ℕ × Key) = if better key (key_of best) then some (i, key) else best in
      let current_key' : Option Key =
        if is_current current path && better key current_key then some key else current_key in
      let skipped = scan current (suc i) rest best current_key in
      let taken = scan current (suc i) rest best' current_key' in
      if is_excluded path then skipped else taken

  unfoldable pub choose : Option FourTuple → List (FourTuple × ℕ) → Option ℕ
  choose current candidates = chosen (scan current 0 candidates none none)
