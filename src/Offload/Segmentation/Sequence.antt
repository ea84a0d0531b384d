-- ===== src/Offload/Segmentation/Sequence.antt =====
-- src/tunnel/offload.rs: sequence numbers and flags of the packets that `segment_tcp_gso_into` emits.
use ezvpn.Prelude.{
  ℕ, zero, suc, ◌/◌, ◌%◌, ◌^◌, ◌⊎◌, inl, inr, refl, ◌+◌, ◌-◌, ◌≤◌, ◌<◌, ◌≡◌, ◌∙◌, ap, List, [], ◌∷◌,
  length, slice, Bytes, arith, true, false, from_be, to_be4, length-drop,
}
use ezvpn.Packet.{byte}
use ezvpn.Offload.{done, VirtioNetHdr}
use ezvpn.Offload.Fields.{wrapping_add}
use ezvpn.Offload.Segmentation.{
  Layout, layout_of, with_tcp_fields, middle_flags, build_segment, segment_tcp_gso_packet,
}
use ezvpn.Offload.Segmentation.Build.{build_done, numbered_at, scratch_at, length-scratch}
use ezvpn.Offload.Segmentation.Valid.{checksum-slice}
use ezvpn.Offload.Segmentation.Kept.{
  sequence_of, flags_of, lengths-slice, scratch-slice, fields_sequence, fields_last, fields_middle,
}
use ezvpn.Offload.Segmentation.Loop.{Fits, layout-Fits, Segments, end, next, segmented}

abbrev pub bit : ℕ → ℕ → ℕ
bit n k = n / 2 ^ k % 2

-- FIN is the bit 0, and PSH the bit 3.
abbrev pub IsFinOrPsh : ℕ → Type 0
IsFinOrPsh k = (k ≡ 0) ⊎ (k ≡ 3)

-- A byte with the bits of another, but for FIN and PSH, which are 0.
pub record IsWithoutEnd (before after : ℕ) : Type 0 where
  pub octet : after < 256
  pub cleared : (k : ℕ) → IsFinOrPsh k → bit after k ≡ 0
  pub kept : (k : ℕ) → k < 8 → (¬ IsFinOrPsh k) → bit after k ≡ bit before k

-- The flags of a segment before the others of a list: all of them if it is the last.
FlagsBefore : Layout → Bytes → Bytes → List Bytes → Type 0
FlagsBefore l packet p [] = flags_of l.tcp_offset p ≡ flags_of l.tcp_offset packet
FlagsBefore l packet p (later ∷ rest) =
    (flags : ℕ) × (flags_of l.tcp_offset p ≡ flags ∷ [])
    × IsWithoutEnd (byte packet (l.tcp_offset + 13)) flags

kept_bit : (flags k : ℕ) → k < 8 → (¬ IsFinOrPsh k) → bit (middle_flags flags) k ≡ bit flags k
unfolding middle_flags
kept_bit flags zero h n = absurd (n (inl refl))
kept_bit flags (suc zero) h n = omega arith
kept_bit flags (suc (suc zero)) h n = omega arith
kept_bit flags (suc (suc (suc zero))) h n = absurd (n (inr refl))
kept_bit flags (suc (suc (suc (suc zero)))) h n = omega arith
kept_bit flags (suc (suc (suc (suc (suc zero))))) h n = omega arith
kept_bit flags (suc (suc (suc (suc (suc (suc zero)))))) h n = omega arith
kept_bit flags (suc (suc (suc (suc (suc (suc (suc zero))))))) h n = omega arith
kept_bit flags (suc (suc (suc (suc (suc (suc (suc (suc k)))))))) h n = absurd (omega (arith, h))

cleared_bit : (flags k : ℕ) → IsFinOrPsh k → bit (middle_flags flags) k ≡ 0
unfolding middle_flags
cleared_bit flags k (inl fin) = rw fin (omega arith)
cleared_bit flags k (inr psh) = rw psh (omega arith)

middle_flags-IsWithoutEnd : (flags : ℕ) → IsWithoutEnd flags (middle_flags flags)
middle_flags-IsWithoutEnd flags = record {
  octet = unfold middle_flags in omega arith;
  cleared = cleared_bit flags;
  kept = kept_bit flags;
}

-- Segments whose numbers count the payload before them, and of which only the last keeps the flags
-- FIN and PSH.
unfoldable pub Numbered : Layout → Bytes → ℕ → ℕ → List Bytes → Type 0
unfolding FlagsBefore
Numbered l packet size offset [] = Unit
Numbered l packet size offset (p ∷ rest) =
    (sequence_of l.tcp_offset p
      ≡ to_be4 ((from_be (sequence_of l.tcp_offset packet) + offset) % 2 ^ 32))
    × FlagsBefore l packet p rest
    × Numbered l packet size (offset + size) rest

-- What stands behind the lengths and before the checksum.
build-slice :
    (offload : VirtioNetHdr) (l : Layout) (packet : Bytes) (offset : ℕ) (p : Bytes) (a j : ℕ)
    → 12 ≤ a
    → a ≤ j
    → j ≤ l.tcp_offset + 16
    → build_segment offload l packet offset ≡ done p
    → slice a j p ≡ slice a j (numbered_at offload l packet offset)
build-slice offload l packet offset p a j behind h before made =
    let (updated, said, summed) = build_done offload l packet offset p made in
    checksum-slice l updated p a j h before summed
    ∙ lengths-slice l.version (numbered_at offload l packet offset) updated _ a j behind said

module _ (offload : VirtioNetHdr) (l : Layout) (packet : Bytes) (fits : Fits l packet) where
  build_sequence :
      (offset : ℕ) (p : Bytes)
      → 8 ≤ l.tcp_offset
      → build_segment offload l packet offset ≡ done p
      → sequence_of l.tcp_offset p
        ≡ to_be4 (wrapping_add (from_be (sequence_of l.tcp_offset packet)) offset)
  unfolding numbered_at with_tcp_fields scratch_at
  build_sequence offset p behind made =
      build-slice offload l packet offset p (l.tcp_offset + 4) (l.tcp_offset + 8) (omega arith)
        (omega arith) (omega arith) made
      ∙ fields_sequence l packet offset _ (scratch_at offload l packet offset)
          (omega (arith, length-scratch offload l packet offset fits.headers_in, fits.tcp_in))

  scratch_flags :
      (offset : ℕ)
      → flags_of l.tcp_offset (scratch_at offload l packet offset) ≡ flags_of l.tcp_offset packet
  scratch_flags offset =
      scratch-slice offload l packet offset (l.tcp_offset + 13) (l.tcp_offset + 14) fits.headers_in
        (omega (arith, fits.tcp_in)) (omega (arith, fits.tcp_in))

  numbered_last :
      (offset : ℕ)
      → length packet - l.headers ≤ offset + offload.gso_size
      → numbered_at offload l packet offset
        ≡ with_tcp_fields l packet offset true (scratch_at offload l packet offset)
  unfolding numbered_at scratch_at
  numbered_last offset ends =
      ap (λ b. with_tcp_fields l packet offset b (scratch_at offload l packet offset))
        (ground (arith, length-drop l.headers packet, ends))

  numbered_middle :
      (offset : ℕ)
      → offset + offload.gso_size < length packet - l.headers
      → numbered_at offload l packet offset
        ≡ with_tcp_fields l packet offset false (scratch_at offload l packet offset)
  unfolding numbered_at scratch_at
  numbered_middle offset on =
      ap (λ b. with_tcp_fields l packet offset b (scratch_at offload l packet offset))
        (ground (arith, length-drop l.headers packet, on))

  Segments-Numbered :
      (offset : ℕ) {segments : List Bytes}
      → 8 ≤ l.tcp_offset
      → Segments offload l packet offset segments
      → Numbered l packet offload.gso_size offset segments
  unfolding Numbered FlagsBefore
  Segments-Numbered offset behind (end over) = tt
  Segments-Numbered offset behind (next p on built (end over)) = (
    build_sequence offset p behind built,
    build-slice offload l packet offset p (l.tcp_offset + 13) (l.tcp_offset + 14) (omega arith)
          (omega arith) (omega arith) built
        ∙ ap (flags_of l.tcp_offset) (numbered_last offset over)
        ∙ fields_last l packet offset (scratch_at offload l packet offset)
        ∙ scratch_flags offset,
    tt,
  )
  Segments-Numbered offset behind (next p on built (next p' on' built' rest)) = (
    build_sequence offset p behind built,
    (
      middle_flags (byte packet (l.tcp_offset + 13)),
      build-slice offload l packet offset p (l.tcp_offset + 13) (l.tcp_offset + 14) (omega arith)
            (omega arith) (omega arith) built
          ∙ ap (flags_of l.tcp_offset) (numbered_middle offset on')
          ∙ fields_middle l packet offset (scratch_at offload l packet offset)
              (omega (arith, length-scratch offload l packet offset fits.headers_in, fits.tcp_in)),
      middle_flags-IsWithoutEnd (byte packet (l.tcp_offset + 13)),
    ),
    Segments-Numbered (offset + offload.gso_size) behind (next p' on' built' rest),
  )

-- The packets that a packet with more payload than one segment takes becomes are numbered from its
-- own sequence number on by the bytes of payload before them, modulo 2 ^ 32, if its TCP header starts
-- at its eighth byte or later. The last keeps the byte of flags; in each other the bits of FIN and
-- PSH are 0 and the other six are those of the packet.
pub segment-Numbered :
    (offload : VirtioNetHdr) (packet : Bytes) (l : Layout) (segments : List Bytes)
    → layout_of offload packet ≡ done l
    → 8 ≤ l.tcp_offset
    → offload.gso_size < length packet - l.headers
    → segment_tcp_gso_packet offload packet ≡ done segments
    → Numbered l packet offload.gso_size 0 segments
segment-Numbered offload packet l segments laid behind long made =
    Segments-Numbered offload l packet (layout-Fits offload packet l laid).0 0 behind
      (segmented offload l packet segments laid long made)
