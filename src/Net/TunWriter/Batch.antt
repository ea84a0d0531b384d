-- ===== src/Net/TunWriter/Batch.antt =====
-- src/net/device.rs: the frames that a batch is written as.
use ezvpn.Prelude.{
  ℕ, suc, ◌+◌, ◌<◌, ◌≡◌, refl, sym, ◌∙◌, ap, Bool, true, false, none, some, List, [], ◌∷◌, ◌++◌,
  length, get_or, slice_middle, All, All-append_right, Bytes, arith, length-append,
}
use mathlib.Core.List.{append_assoc, append-nil}
use ezvpn.Error.{Result, ok}
use ezvpn.Offload.{done, to_bytes, default_hdr, compose_tun_frame}
use ezvpn.Offload.Segments.{TcpSegmentMeta, parse_coalescible_tcp, plan_tun_write_groups}
use ezvpn.Offload.Plan.{Planned, end, single, run, plan-Planned}
use ezvpn.Offload.Superframe.{virtio_for, assemble_tcp_gso_superframe}
use ezvpn.Offload.Superframe.Joined.{Joined, assemble-Joined}
use ezvpn.Net.TunWriter.{
  TunWriter, write_packet, write_group, write_planned_groups, write_batch, write_assembled,
  and_then,
}

-- Frames for a batch, in its order: a packet behind an empty header, or a run of packets joined to
-- one behind the header for its segmentation.
pub data Carries : List Bytes → List Bytes → Type 0 where
  nothing : Carries [] []
  plain :
      (packet : Bytes) {rest frames : List Bytes}
      → Carries rest frames
      → Carries (packet ∷ rest) ((to_bytes default_hdr ++ packet) ∷ frames)
  merged :
      (first : Bytes) (m : TcpSegmentMeta) (members : List Bytes) (ip : Bytes)
      {rest frames : List Bytes}
      → parse_coalescible_tcp first ≡ some m
      → Joined first m members ip
      → Carries rest frames
      → Carries (first ∷ (members ++ rest)) ((to_bytes (virtio_for m) ++ ip) ∷ frames)

-- A device that takes each frame.
abbrev pub record_frame : List Bytes → Bytes → List Bytes × Result (Unit {0})
record_frame out frame = (out ++ frame ∷ [], ok tt)

abbrev pub with_offload : TunWriter
with_offload = record { vnet_hdr_enabled = true; enabled = true }

get_or-at :
    (xs : List Bytes) (x : Bytes) (ys : List Bytes) → get_or (xs ++ x ∷ ys) (length xs) [] ≡ x
get_or-at [] x ys = refl
get_or-at (y ∷ xs) x ys = get_or-at xs x ys

one_packet :
    (packet : Bytes) (out : List Bytes)
    → 0 < length packet
    → write_packet record_frame with_offload none packet out
      ≡ (out ++ (to_bytes default_hdr ++ packet) ∷ [], ok tt)
unfolding write_packet compose_tun_frame
one_packet packet out full = ground arith

group_single :
    (before : List Bytes) (packet : Bytes) (rest : List Bytes) (i j : ℕ) (out : List Bytes)
    → length before ≡ i
    → 0 < length packet
    → write_group record_frame with_offload (before ++ packet ∷ rest) (i, j, false) out
      ≡ (out ++ (to_bytes default_hdr ++ packet) ∷ [], ok tt)
unfolding write_group
group_single before packet rest i j out at full =
    rw (← at, get_or-at before packet rest) (one_packet packet out full)

group_run :
    (before : List Bytes) (segments rest : List Bytes) (frame : Bytes) (i j : ℕ) (out : List Bytes)
    → length before ≡ i
    → length segments + i ≡ j
    → assemble_tcp_gso_superframe segments ≡ done frame
    → write_group record_frame with_offload (before ++ (segments ++ rest)) (i, j, true) out
      ≡ (out ++ frame ∷ [], ok tt)
unfolding write_group write_assembled
group_run before segments rest frame i j out at upto made =
    rw (slice_middle before segments rest i j at upto) (rw (made, write_assembled) refl)

next_group :
    (batch : List Bytes) (g : ℕ × ℕ × Bool) (groups : List (ℕ × ℕ × Bool)) (out w : List Bytes)
    {r : List Bytes × Result (Unit {0})}
    → write_group record_frame with_offload batch g out ≡ (w, ok tt)
    → write_planned_groups record_frame with_offload batch groups w ≡ r
    → write_planned_groups record_frame with_offload batch (g ∷ groups) out ≡ r
unfolding write_planned_groups and_then
next_group batch g groups out w h k =
    ap (λ r. and_then record_frame r (write_planned_groups record_frame with_offload batch groups))
      h
    ∙ k

-- The frames of the groups from an index on.
abbrev Writes : List Bytes → List Bytes → List Bytes → List (ℕ × ℕ × Bool) → List Bytes → Type 0
Writes before rest frames groups out =
    write_planned_groups record_frame with_offload (before ++ rest) groups out
    ≡ (out ++ frames, ok tt)

-- A group written, with the groups after it.
first_of :
    (before group rest frames : List Bytes) (frame : Bytes) (g : ℕ × ℕ × Bool)
    (groups : List (ℕ × ℕ × Bool)) (out : List Bytes)
    → write_group record_frame with_offload (before ++ (group ++ rest)) g out
      ≡ (out ++ frame ∷ [], ok tt)
    → Writes (before ++ group) rest frames groups (out ++ frame ∷ [])
    → Writes before (group ++ rest) (frame ∷ frames) (g ∷ groups) out
first_of before group rest frames frame g groups out h k =
    next_group (before ++ (group ++ rest)) g groups out (out ++ frame ∷ []) h (
      ap (λ batch. write_planned_groups record_frame with_offload batch groups (out ++ frame ∷ []))
        (sym (append_assoc before group rest))
      ∙ k
      ∙ ap (λ fs. (fs, ok tt)) (append_assoc out (frame ∷ []) frames))

groups-Carries :
    (i : ℕ) (before rest : List Bytes) (groups : List (ℕ × ℕ × Bool)) (out : List Bytes)
    → length before ≡ i
    → All (λ p. 0 < length p) rest
    → Planned i rest groups
    → (frames : List Bytes) × Writes before rest frames groups out × Carries rest frames
unfolding write_planned_groups
groups-Carries i before batch all_groups out at full end =
    ([], ap (λ fs. (fs, ok tt)) (sym (append-nil out)), nothing)
groups-Carries i before batch all_groups out at full
      (single packet {rest = rest} {groups = groups} planned) =
    let frame : Bytes = to_bytes default_hdr ++ packet in
    let (frames, written, carries) =
      groups-Carries (i + 1) (before ++ packet ∷ []) rest groups (out ++ frame ∷ [])
        (length-append before (packet ∷ []) ∙ omega (arith, at)) full.1 planned in
    (
      frame ∷ frames,
      first_of before (packet ∷ []) rest frames frame (i, i + 1, false) groups out
          (group_single before packet rest i (i + 1) out at full.0) written,
      plain packet carries,
    )
groups-Carries i before batch all_groups out at full
      (run first m members {rest = rest} {groups = groups} parsed many joins planned) =
    let segments : List Bytes = first ∷ members in
    let (ip, made, joined) = assemble-Joined first m members parsed many joins in
    let frame : Bytes = to_bytes (virtio_for m) ++ ip in
    let j : ℕ = i + suc (length members) in
    let (frames, written, carries) =
      groups-Carries j (before ++ segments) rest groups (out ++ frame ∷ [])
        (length-append before segments ∙ omega (arith, at))
        (All-append_right (λ p. 0 < length p) segments rest full) planned in
    (
      frame ∷ frames,
      first_of before segments rest frames frame (i, j, true) groups out
          (group_run before segments rest frame i j out at (omega arith) made) written,
      merged first m members ip parsed joined carries,
    )

-- A batch of packets, none of them empty, is written to a device with offload that takes each frame:
-- in order, the packets as they are and the planned runs joined, each by an assembly that succeeds.
pub write_batch-Carries :
    (batch : List Bytes)
    → All (λ p. 0 < length p) batch
    → (frames : List Bytes) × (write_batch record_frame with_offload batch [] ≡ (frames, ok tt))
      × Carries batch frames
unfolding write_batch
write_batch-Carries batch full =
    groups-Carries 0 [] batch (plan_tun_write_groups batch) [] refl full (plan-Planned batch)
