-- ===== src/Offload/Segmentation/Loop.antt =====
-- src/tunnel/offload.rs: the loop of `segment_tcp_gso_into`, and the packets it emits.
use ezvpn.Prelude.{
  if_gave, ℕ, zero, suc, ◌+◌, ◌-◌, ◌/◌, ◌≤◌, ◌<◌, ◌≡◌, ◌⊎◌, inl, inr, refl, sym, ◌∙◌, not, List, [],
  ◌∷◌, ◌++◌, leb, length, subst, Bytes, nat_eq, if◌then◌else◌, arith,
}
use mathlib.Core.List.{append_assoc, append-nil}
use ezvpn.Packet.{byte}
use ezvpn.Offload.{Outcome, done, failed, VirtioNetHdr, is_tcp_gso}
use ezvpn.Offload.Fields.{>>=-eq-done}
use ezvpn.Offload.Segmentation.{
  Layout, layout_of, headers_of, checked_version, tcp_offset_of, build_segment, segment_loop,
  segment_at, segment_tcp_gso_into, segment_tcp_gso_packet, collect, collected, emit_built,
}

-- Headers that lie in the packet, with a whole TCP header among them.
pub record Fits (l : Layout) (packet : Bytes) : Type 0 where
  pub tcp_in : l.tcp_offset + 20 ≤ l.headers
  pub headers_in : l.headers ≤ length packet
  pub version_known : (l.version ≡ 4) ⊎ (l.version ≡ 6)

headers-Fits :
    (packet : Bytes) (t h : ℕ) → headers_of packet t ≡ done h → (t + 20 ≤ h) × (h ≤ length packet)
unfolding headers_of
headers-Fits packet t h made = ground arith

version_lem :
    (offload : VirtioNetHdr) (version v : ℕ)
    → checked_version offload version ≡ done v
    → (v ≡ 4) ⊎ (v ≡ 6)
unfolding checked_version
version_lem offload version v made = ground arith

done_injective : {a b : Layout} → done a ≡ done b → a ≡ b
done_injective h = cc

pub layout-Fits :
    (offload : VirtioNetHdr) (packet : Bytes) (l : Layout)
    → layout_of offload packet ≡ done l
    → Fits l packet × (0 < offload.gso_size)
unfolding layout_of is_tcp_gso
layout-Fits offload packet l made = elim (if_gave (not (is_tcp_gso offload)) _ _ made) [
  | inl (other, refused) ↦ cc
  | inr (tcp, go) ↦ elim (if_gave (nat_eq (length packet) 0) _ _ go) [
    | inl (empty, refused) ↦ cc
    | inr (full, chain) ↦
        let (version, a, chain1) =
          >>=-eq-done (checked_version offload (byte packet 0 / 16)) _ chain in
        let (offset, b, chain2) = >>=-eq-done (tcp_offset_of offload packet version) _ chain1 in
        let (headers, c, last) = >>=-eq-done (headers_of packet offset) _ chain2 in
        let (below, within) = headers-Fits packet offset headers c in
        (
          record {
            tcp_in = ground (arith, last, below);
            headers_in = ground (arith, last, within);
            version_known =
                subst (λ l. (l.version ≡ 4) ⊎ (l.version ≡ 6)) (done_injective last)
                  (version_lem offload (byte packet 0 / 16) version a);
          },
          ground arith,
        )
  ]
]

-- The segments from an offset of the payload on, each built by a round of the loop.
pub data Segments (offload : VirtioNetHdr) (l : Layout) (packet : Bytes)
    : ℕ → List Bytes → Type 0 where
  end : {offset : ℕ} → length packet - l.headers ≤ offset → Segments offload l packet offset []
  next :
      {offset : ℕ} (segment : Bytes) {rest : List Bytes}
      → offset < length packet - l.headers
      → build_segment offload l packet offset ≡ done segment
      → Segments offload l packet (offset + offload.gso_size) rest
      → Segments offload l packet offset (segment ∷ rest)

emitted :
    (m : Outcome Bytes) (out : List Bytes) (k : List Bytes → List Bytes × Outcome (Unit {0}))
    {result : List Bytes}
    → emit_built collect m out k ≡ (result, done tt)
    → (segment : Bytes) × (m ≡ done segment) × (k (out ++ segment ∷ []) ≡ (result, done tt))
unfolding emit_built
emitted (done segment) out k h = (segment, refl, h)
emitted (failed e) out k h = ground arith

-- With fuel for the rest of the payload the loop is not cut short.
loop-Segments :
    (fuel : ℕ) (offload : VirtioNetHdr) (l : Layout) (packet : Bytes) (offset : ℕ)
    (out result : List Bytes)
    → length packet - l.headers ≤ offset + fuel
    → 0 < offload.gso_size
    → segment_loop collect fuel offload l packet offset out ≡ (result, done tt)
    → (more : List Bytes) × (out ++ more ≡ result) × Segments offload l packet offset more
unfolding segment_loop
loop-Segments zero offload l packet offset out result enough positive made =
    ([], append-nil out ∙ ground (arith, made), end (omega arith))
loop-Segments (suc fuel) offload l packet offset out result enough positive made =
    elim (if_gave (leb (length packet - l.headers) offset) _ _ made) [
      | inl (over, same) ↦ ([], append-nil out ∙ ground (arith, same), end (ground (arith, over)))
      | inr (on, go) ↦
          let (segment, built, rest) = emitted (build_segment offload l packet offset) out _ go in
          let (more, at, segments) =
            loop-Segments fuel offload l packet (offset + offload.gso_size) (out ++ segment ∷ [])
              result (omega arith) positive rest in
          (
            segment ∷ more,
            sym (append_assoc out (segment ∷ []) more) ∙ at,
            next segment (ground (arith, on)) built segments,
          )
    ]

collected_done :
    (r : List Bytes × Outcome (Unit {0})) (segments : List Bytes)
    → collected r ≡ done segments
    → r ≡ (segments, done tt)
collected_done (out, done u) segments h = ground (arith, h)
collected_done (out, failed e) segments h = cc

past_test :
    (a b : ℕ) (x y : List Bytes × Outcome (Unit {0})) (segments : List Bytes)
    → b < a
    → collected (if leb a b then x else y) ≡ done segments
    → collected y ≡ done segments
past_test a b x y segments h made = ground arith

-- A packet with more payload than one segment takes goes through the loop.
pub segmented :
    (offload : VirtioNetHdr) (l : Layout) (packet : Bytes) (segments : List Bytes)
    → layout_of offload packet ≡ done l
    → offload.gso_size < length packet - l.headers
    → segment_tcp_gso_packet offload packet ≡ done segments
    → Segments offload l packet 0 segments
unfolding segment_tcp_gso_packet segment_tcp_gso_into segment_at
segmented offload l packet segments laid long made =
    let (fits, positive) = layout-Fits offload packet l laid in
    let (more, at, all) =
      loop-Segments (length packet - l.headers) offload l packet 0 [] segments (omega arith)
        positive
        (collected_done _ segments (
          past_test (length packet - l.headers) offload.gso_size _ _ segments long (
            subst (λ m. collected (segment_at collect offload packet m []) ≡ done segments) laid
              made))) in
    subst (Segments offload l packet 0) at all
