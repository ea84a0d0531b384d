-- ===== src/Server/Inbound/Isolation.antt =====
-- Which packets of a client of src/tunnel/server.rs may reach the TUN device, and which do.
use ezvpn.Prelude.{
  ℕ, ◌/◌, ◌^◌, ◌≡◌, ◌≢◌, ◌↔◌, ◌⊎◌, some_injective, refl, sym, subst, true, false, Option, none,
  some, List, [], ◌∷◌, Eq, pair_eq, ℕ_eq, Bytes, arith, All, All-append, Bool-cases, inl, inr,
}
use ezvpn.Dict
use ezvpn.Dict.{Dict, contains_key}
use ezvpn.Packet.Own.{IsOwn, not-IsOwn_iff}
use ezvpn.Packet.{
  PacketIp, v4, v6, extract_source_ip, extract_dest_ip, packet_has_local_iroh_udp_port,
}
use ezvpn.Server.Stats.{VpnServerStats}
use ezvpn.Server.Inbound.{
  ChannelAnswer, sent, closed, full_then_sent, full_then_closed, enqueue_tun_write, is_link_local,
  ClientContext, not_of_another, source_valid, to_vpn_client, handle_packet, handle_batch,
}

-- The two octets that are tested are the ten bits of the prefix.
pub is_link_local_iff : (ip : ℕ) → is_link_local ip ≡ true ↔ ip / 2 ^ 118 ≡ 1018
unfolding is_link_local
is_link_local_iff ip = (λ h. ground arith, λ h. ground arith)

-- A source that a client may use: its own address, or one that no client holds and that is routable.
abbrev pub MayUse : {E : Type 0} → ClientContext E → PacketIp → Type 0
MayUse ctx (v4 src) =
    (owner : _) → Dict.get src ctx.ip_to_endpoint ≡ some owner → owner ≡ ctx.client_key
MayUse ctx (v6 src) =
    (src / 2 ^ 118 ≢ 1018)
    × ((owner : _) → Dict.get src ctx.ip6_to_endpoint ≡ some owner → owner ≡ ctx.client_key)

-- A destination that no client holds.
abbrev pub Outside : {E : Type 0} → ClientContext E → Option PacketIp → Type 0
Outside ctx none = Unit
Outside ctx (some (v4 dst)) = Dict.get dst ctx.ip_to_endpoint ≡ none
Outside ctx (some (v6 dst)) = Dict.get dst ctx.ip6_to_endpoint ≡ none

-- A packet that may pass.
pub record Passes {E : Type 0} (ports : List ℕ) (ctx : ClientContext E) (packet : Bytes)
    : Type 0 where
  pub not_own_transport : ¬ IsOwn ports packet
  pub source : (ip : PacketIp) × (extract_source_ip packet ≡ some ip) × MayUse ctx ip
  pub destination : Outside ctx (extract_dest_ip packet)

module _ {E : Type 0} ⦃e : Eq E⦄ where
  not_of_another_iff :
      (key : E × ℕ) (o : Option (E × ℕ))
      → not_of_another key o ≡ true ↔ ((owner : E × ℕ) → o ≡ some owner → owner ≡ key)
  unfolding not_of_another
  not_of_another_iff key none = (λ h owner held. cc, λ h. refl)
  not_of_another_iff key (some k) = (
    λ h owner held.
        ((pair_eq {A = E} {B = ℕ}).beq_iff owner key).0 (rw (sym (some_injective held)) h),
    λ h. ((pair_eq {A = E} {B = ℕ}).beq_iff k key).1 (h k refl),
  )

  MayUse-iff :
      (ctx : ClientContext E) (ip : PacketIp) → source_valid ctx (some ip) ≡ true ↔ MayUse ctx ip
  unfolding source_valid
  MayUse-iff ctx (v4 src) = not_of_another_iff ctx.client_key (Dict.get src ctx.ip_to_endpoint)
  MayUse-iff ctx (v6 src) =
      let own = not_of_another_iff ctx.client_key (Dict.get src ctx.ip6_to_endpoint) in
      elim (Bool-cases (is_link_local src)) [
        | inl local ↦ (
          λ h. absurd (ground (arith, local, h)),
          λ h. absurd (h.0 ((is_link_local_iff src).0 local)),
        )
        | inr routable ↦
            rw routable
              (λ h. (λ bad. ground (arith, (is_link_local_iff src).1 bad), own.0 h), λ h. own.1 h.1)
      ]

  Outside-iff :
      (ctx : ClientContext E) (o : Option PacketIp) → to_vpn_client ctx o ≡ false ↔ Outside ctx o
  unfolding to_vpn_client
  Outside-iff ctx (some (v4 dst)) = (λ h. ground arith, λ h. ground arith)
  Outside-iff ctx (some (v6 dst)) = (λ h. ground arith, λ h. ground arith)
  Outside-iff ctx none = (λ h. tt, λ h. refl)

  source_valid→Passes :
      (ctx : ClientContext E) (o : Option PacketIp)
      → source_valid ctx o ≡ true ↔ ((ip : PacketIp) × (o ≡ some ip) × MayUse ctx ip)
  unfolding source_valid
  source_valid→Passes ctx none = (λ h. cc, λ (ip, eq, may). cc)
  source_valid→Passes ctx (some ip) = (
    λ h. (ip, refl, (MayUse-iff ctx ip).0 h),
    λ (ip', eq, may).
        subst (λ x. source_valid ctx (some x) ≡ true) (sym (some_injective eq))
          ((MayUse-iff ctx ip').1 may),
  )

  pub forwarded_iff :
      (ports : List ℕ) (ctx : ClientContext E) (packet : Bytes) (s : VpnServerStats)
      → (handle_packet ports ctx packet sent s).2 ≡ packet ∷ [] ↔ Passes ports ctx packet
  unfolding handle_packet enqueue_tun_write
  forwarded_iff ports ctx packet s =
      elim (Bool-cases (packet_has_local_iroh_udp_port packet ports)) [
        | inl own ↦
            rw own (λ h. cc, λ v. cc (own, (not-IsOwn_iff packet ports).1 v.not_own_transport))
        | inr other ↦ rw other elim (Bool-cases (source_valid ctx (extract_source_ip packet))) [
          | inr bad ↦ rw bad (
            λ h. cc,
            λ v. absurd (
                ground
                  (arith, bad, (source_valid→Passes ctx (extract_source_ip packet)).1 v.source)),
          )
          | inl good ↦ rw good elim (Bool-cases (to_vpn_client ctx (extract_dest_ip packet))) [
            | inl inside ↦ rw inside (
              λ h. cc,
              λ v. absurd (
                  ground
                    (arith, inside, (Outside-iff ctx (extract_dest_ip packet)).1 v.destination)),
            )
            | inr outside ↦ rw outside (
              λ h. record {
                not_own_transport = (not-IsOwn_iff packet ports).0 other;
                source = (source_valid→Passes ctx (extract_source_ip packet)).0 good;
                destination = (Outside-iff ctx (extract_dest_ip packet)).0 outside;
              },
              λ v. refl,
            )
          ]
        ]
      ]

  written_cases :
      (ports : List ℕ) (ctx : ClientContext E) (packet : Bytes) (answer : ChannelAnswer)
      (s : VpnServerStats)
      → ((handle_packet ports ctx packet answer s).2 ≡ [])
        ⊎ (((handle_packet ports ctx packet answer s).2 ≡ packet ∷ [])
            × ((handle_packet ports ctx packet sent s).2 ≡ packet ∷ []))
  unfolding handle_packet enqueue_tun_write
  written_cases ports ctx packet sent s = ground arith
  written_cases ports ctx packet closed s = inl (ground arith)
  written_cases ports ctx packet full_then_sent s = ground arith
  written_cases ports ctx packet full_then_closed s = inl (ground arith)

  handle_packet-Passes :
      (ports : List ℕ) (ctx : ClientContext E) (packet : Bytes) (answer : ChannelAnswer)
      (s : VpnServerStats)
      → All (Passes ports ctx) (handle_packet ports ctx packet answer s).2
  handle_packet-Passes ports ctx packet answer s = elim (written_cases ports ctx packet answer s) [
    | inl nothing ↦ rw nothing tt
    | inr (it, passed) ↦ rw it ((forwarded_iff ports ctx packet s).0 passed, tt)
  ]

  -- Whatever a client sends, and whatever the channel answers, no packet of a batch is written that
  -- may not pass.
  pub batch-Passes :
      (ports : List ℕ) (ctx : ClientContext E) (batch : List (Bytes × ChannelAnswer))
      (s : VpnServerStats)
      → All (Passes ports ctx) (handle_batch ports ctx batch s).2
  unfolding handle_batch
  batch-Passes ports ctx [] s = tt
  batch-Passes ports ctx ((packet, answer) ∷ batch) s =
      let now = handle_packet ports ctx packet answer s in
      let here = handle_packet-Passes ports ctx packet answer s in
      elim (Bool-cases now.0) [
        | inl more ↦ rw more (
            All-append (Passes ports ctx) now.2 (handle_batch ports ctx batch now.1).2 here
              (batch-Passes ports ctx batch now.1))
        | inr over ↦ rw over here
      ]
