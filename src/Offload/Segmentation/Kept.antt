-- ===== src/Offload/Segmentation/Kept.antt =====
-- src/tunnel/offload.rs: what a segment of `segment_tcp_gso_into` keeps of its packet, and what is
-- written over.
use ezvpn.Prelude.{
  if_gave, ℕ, ◌+◌, ◌-◌, ◌≤◌, ◌≡◌, inl, inr, sym, ◌∙◌, ap, [], ◌∷◌, length, take, drop, slice, Bytes,
  arith, Bool, true, false, from_be, to_be2, to_be4, nat_eq, take-append-drop, slice-append_left,
  length-take,
}
use ezvpn.Packet.{byte}
use ezvpn.Offload.{done, VirtioNetHdr}
use ezvpn.Offload.Fields.{put, wrapping_add}
use ezvpn.Offload.Writes.{length-put, slice-put_before, slice-put_behind, slice-put}
use ezvpn.Offload.Segmentation.{Layout, with_lengths, with_tcp_fields, middle_flags}
use ezvpn.Offload.Segmentation.Build.{update4_done, update6_done, scratch_at, chunk_at}

abbrev pub sequence_of : ℕ → Bytes → Bytes
sequence_of t p = slice (t + 4) (t + 8) p

abbrev pub flags_of : ℕ → Bytes → Bytes
flags_of t p = slice (t + 13) (t + 14) p

-- The update of the lengths leaves what stands behind the first twelve bytes.
pub lengths-slice :
    (version : ℕ) (p q : Bytes) (len a j : ℕ)
    → 12 ≤ a
    → with_lengths version p len ≡ done q
    → slice a j q ≡ slice a j p
unfolding with_lengths
lengths-slice version p q len a j behind made = elim (if_gave (nat_eq version 4) _ _ made) [
  | inl (four, made4) ↦ rw (← (update4_done p q len made4).0) (
      slice-put_behind a j 10 _ (put 10 (0 ∷ 0 ∷ []) (put 2 (to_be2 len) p)) behind
      ∙ slice-put_behind a j 10 (0 ∷ 0 ∷ []) (put 2 (to_be2 len) p) behind
      ∙ slice-put_behind a j 2 (to_be2 len) p (omega arith))
  | inr (six, made6) ↦
      rw (← (update6_done p q len made6).0)
        (slice-put_behind a j 4 (to_be2 (len - 40)) p (omega arith))
]

-- The headers of a segment, before a field is written.
pub scratch-slice :
    (offload : VirtioNetHdr) (l : Layout) (packet : Bytes) (offset a j : ℕ)
    → l.headers ≤ length packet
    → a ≤ l.headers
    → j ≤ l.headers
    → slice a j (scratch_at offload l packet offset) ≡ slice a j packet
unfolding scratch_at
scratch-slice offload l packet offset a j fits h k =
    let head : Bytes = take l.headers packet in
    let len : length head ≡ l.headers = omega (arith, length-take l.headers packet) in
    slice-append_left a j head (chunk_at offload l packet offset) (omega (arith, len))
      (omega (arith, len))
    ∙ sym (
        slice-append_left a j head (drop l.headers packet) (omega (arith, len))
          (omega (arith, len)))
    ∙ ap (slice a j) (take-append-drop l.headers packet)

pub fields_sequence :
    (l : Layout) (packet : Bytes) (offset : ℕ) (is_last : Bool) (scratch : Bytes)
    → l.tcp_offset + 20 ≤ length scratch
    → sequence_of l.tcp_offset (with_tcp_fields l packet offset is_last scratch)
      ≡ to_be4 (wrapping_add (from_be (sequence_of l.tcp_offset packet)) offset)
unfolding with_tcp_fields
fields_sequence l packet offset true scratch h =
    slice-put (l.tcp_offset + 4) (l.tcp_offset + 8) (to_be4 _) scratch (omega arith) (omega arith)
fields_sequence l packet offset false scratch h =
    slice-put_before (l.tcp_offset + 4) (l.tcp_offset + 8) (l.tcp_offset + 13) _ _ (omega arith)
      (omega arith)
    ∙ slice-put (l.tcp_offset + 4) (l.tcp_offset + 8) (to_be4 _) scratch (omega arith) (omega arith)

pub fields_last :
    (l : Layout) (packet : Bytes) (offset : ℕ) (scratch : Bytes)
    → flags_of l.tcp_offset (with_tcp_fields l packet offset true scratch)
      ≡ flags_of l.tcp_offset scratch
unfolding with_tcp_fields
fields_last l packet offset scratch =
    slice-put_behind (l.tcp_offset + 13) (l.tcp_offset + 14) (l.tcp_offset + 4) (to_be4 _) scratch
      (omega arith)

pub fields_middle :
    (l : Layout) (packet : Bytes) (offset : ℕ) (scratch : Bytes)
    → l.tcp_offset + 20 ≤ length scratch
    → flags_of l.tcp_offset (with_tcp_fields l packet offset false scratch)
      ≡ middle_flags (byte packet (l.tcp_offset + 13)) ∷ []
unfolding with_tcp_fields
fields_middle l packet offset scratch h =
    slice-put (l.tcp_offset + 13) (l.tcp_offset + 14) _ _ (omega arith)
      (omega (arith, length-put (l.tcp_offset + 4) (to_be4 _) scratch))
