-- ===== src/Offload/Materialize/Emitted.antt =====
-- src/tunnel/offload.rs: a callback of `materialize_offload_into` that never fails sees the packets
-- that the collecting wrapper lists, in their order.
use ezvpn.Prelude.{ℕ, refl, Option, none, some, [], nat_eq, Bytes, Bool-cases, inl, inr}
use ezvpn.Offload.{Outcome, done, failed, VirtioNetHdr, is_tcp_gso}
use ezvpn.Offload.Segmentation.{collect}
use ezvpn.Offload.Segmentation.Emitted.{feed, emit, Fed, segment-Fed}
use ezvpn.Offload.Materialize.{
  validate_checksum_offload, materialize_checked, materialize_offload_into,
}

module _ {S : Type 0} (f : S → Bytes → S) (start : S) where
  checked-Fed :
      (packet : Bytes) (m : Outcome (Option (ℕ × ℕ)))
      → Fed f start
          (materialize_checked (emit f start) packet m start)
          (materialize_checked collect packet m [])
  unfolding materialize_checked feed
  checked-Fed packet (failed e) = refl
  checked-Fed packet (done none) = refl
  checked-Fed packet (done (some (from, index))) = refl

  -- A callback that never fails ends in the state that the packets of the collecting wrapper lead
  -- it to, with the wrapper's result.
  pub materialize-Fed :
      (offload : VirtioNetHdr) (packet : Bytes)
      → Fed f start
          (materialize_offload_into (emit f start) offload packet start)
          (materialize_offload_into collect offload packet [])
  unfolding materialize_offload_into feed
  materialize-Fed offload packet = elim (Bool-cases (is_tcp_gso offload)) [
    | inl tcp ↦ rw tcp (segment-Fed f start offload packet)
    | inr other ↦ elim (Bool-cases (nat_eq offload.gso_type 0)) [
      | inl plain ↦
          rw (other, plain) (checked-Fed packet (validate_checksum_offload offload packet))
      | inr unknown ↦ rw (other, unknown) refl
    ]
  ]
