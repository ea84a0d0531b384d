-- ===== src/Net/TunWriter.antt =====
-- src/net/device.rs: `TunWriter`, where the device is not Apple's: packets and batches of packets that
-- are written to the TUN device. The device is a parameter: a state, and its answer to a frame.
pub mod Batch
use ezvpn.Prelude.{
  ℕ, Bool, true, false, not, ◌||◌, Option, none, some, List, [], ◌∷◌, nat_eq, if◌then◌else◌, length,
  get_or, slice, Bytes, is_some,
}
use ezvpn.Error.{Result, ok, err, tun_device}
use ezvpn.Offload.{Outcome, done, failed, VirtioNetHdr, compose_tun_frame}
use ezvpn.Offload.Segments.{plan_tun_write_groups}
use ezvpn.Offload.Superframe.{assemble_tcp_gso_superframe}

-- `enabled` is that of the offload status.
pub record TunWriter : Type 0 where
  pub vnet_hdr_enabled : Bool
  pub enabled : Bool

module _ {W : Type 0} (write_all : W → Bytes → W × Result (Unit {0})) where
  abbrev pub Written : Type 0
  Written = W × Result (Unit {0})

  -- The `?` operator.
  and_then : Written → (W → Written) → Written
  and_then (w, ok u) next = next w
  and_then (w, err e) next = (w, err e)

  write_composed : Outcome Bytes → W → Written
  write_composed (failed e) w = (w, err (tun_device e))
  write_composed (done frame) w = write_all w frame

  unfoldable pub write_packet : TunWriter → Option VirtioNetHdr → Bytes → W → Written
  unfolding write_composed
  write_packet t offload ip_packet w =
      if not t.vnet_hdr_enabled
      then (if is_some offload
          then (
            w,
            err (tun_device "received offload metadata but local TUN does not use vnet headers"),
          )
          else if nat_eq (length ip_packet) 0
          then (w, err (tun_device "cannot compose TUN frame with empty IP payload"))
          else write_all w ip_packet)
      else write_composed (compose_tun_frame t.vnet_hdr_enabled offload ip_packet) w

  unfoldable pub write_each : TunWriter → List Bytes → W → Written
  unfolding and_then
  write_each t [] w = (w, ok tt)
  write_each t (packet ∷ batch) w = and_then (write_packet t none packet w) (write_each t batch)

  write_assembled : TunWriter → List Bytes → Outcome Bytes → W → Written
  write_assembled t segments (done frame) w = write_all w frame
  write_assembled t segments (failed e) w = write_each t segments w

  -- A group that is not joined is one packet.
  unfoldable pub write_group : TunWriter → List Bytes → ℕ × ℕ × Bool → W → Written
  unfolding write_assembled
  write_group t batch (start, end, coalesce) w =
      let segments : List Bytes = slice start end batch in
      if not coalesce
      then write_packet t none (get_or batch start []) w
      else write_assembled t segments (assemble_tcp_gso_superframe segments) w

  unfoldable pub write_planned_groups : TunWriter → List Bytes → List (ℕ × ℕ × Bool) → W → Written
  unfolding and_then
  write_planned_groups t batch [] w = (w, ok tt)
  write_planned_groups t batch (group ∷ groups) w =
      and_then (write_group t batch group w) (write_planned_groups t batch groups)

  unfoldable pub write_batch : TunWriter → List Bytes → W → Written
  write_batch t batch w =
      if not t.vnet_hdr_enabled || not t.enabled
      then write_each t batch w
      else write_planned_groups t batch (plan_tun_write_groups batch) w
