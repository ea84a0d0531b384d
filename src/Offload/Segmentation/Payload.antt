-- ===== src/Offload/Segmentation/Payload.antt =====
-- src/tunnel/offload.rs: the payloads of the packets that `segment_tcp_gso_into` emits.
use ezvpn.Prelude.{
  ℕ, zero, suc, ◌+◌, ◌-◌, ◌≤◌, ◌<◌, ◌≡◌, refl, sym, ◌∙◌, ap, List, [], ◌∷◌, ◌++◌, length, take,
  drop, slice, min, Bytes, arith, All, take-append-drop, length-drop, length-take,
}
use native.Mathlib.Decide.{dec_le}
use mathlib.Core.Path.{ap₂}
use ezvpn.Offload.Segmentation.Loop.{Fits, layout-Fits, Segments, end, next, segmented}
use ezvpn.Offload.{done, VirtioNetHdr}
use ezvpn.Offload.Superframe.{payloads}
use ezvpn.Offload.Segmentation.{Layout, layout_of, segment_tcp_gso_packet}
use ezvpn.Offload.Segmentation.Build.{chunk_at, build-chunk}

pub length-chunk :
    (offload : VirtioNetHdr) (l : Layout) (packet : Bytes) (offset : ℕ)
    → length (chunk_at offload l packet offset) ≤ offload.gso_size
unfolding chunk_at
length-chunk offload l packet offset = omega (
  arith,
  length-take (min (offset + offload.gso_size) (length (drop l.headers packet)) - offset)
      (drop offset (drop l.headers packet)),
)

take-all : (n : ℕ) (xs : Bytes) → length xs ≤ n → take n xs ≡ xs
take-all zero [] h = refl
take-all (suc n) [] h = refl
take-all zero (x ∷ xs) h = absurd (omega arith)
take-all (suc n) (x ∷ xs) h = ap (◌∷◌ x) (take-all n xs (omega arith))

drop-all : (n : ℕ) (xs : Bytes) → length xs ≤ n → drop n xs ≡ []
drop-all zero [] h = refl
drop-all (suc n) [] h = refl
drop-all zero (x ∷ xs) h = absurd (omega arith)
drop-all (suc n) (x ∷ xs) h = drop-all n xs (omega arith)

pub drop-drop : (m n k : ℕ) (xs : Bytes) → m + n ≡ k → drop n (drop m xs) ≡ drop k xs
drop-drop zero n k xs h = ap (λ j. drop j xs) (omega arith)
drop-drop (suc m) n zero xs h = absurd (omega arith)
drop-drop (suc m) zero (suc k) [] h = refl
drop-drop (suc m) (suc n) (suc k) [] h = refl
drop-drop (suc m) n (suc k) (x ∷ xs) h = drop-drop m n k xs (omega arith)

-- A slice that ends early or at the end, and what follows it.
slice_rest :
    (offset size : ℕ) (xs : Bytes)
    → slice offset (min (offset + size) (length xs)) xs ++ drop (offset + size) xs ≡ drop offset xs
slice_rest offset size xs =
    ap (λ bs. slice offset (min (offset + size) (length xs)) xs ++ bs)
      (sym (drop-drop offset size (offset + size) xs refl))
    ∙ ap (λ bs. bs ++ drop size (drop offset xs)) (same (dec_le (offset + size) (length xs)))
    ∙ take-append-drop size (drop offset xs)
  where
    same :
        Dec (offset + size ≤ length xs)
        → slice offset (min (offset + size) (length xs)) xs ≡ take size (drop offset xs)
    same (yes within) = ap (λ n. take n (drop offset xs)) (omega arith)
    same (no beyond) =
        take-all _ (drop offset xs) (omega (arith, length-drop offset xs))
        ∙ sym (take-all size (drop offset xs) (omega (arith, length-drop offset xs)))

Segments-payload :
    (offload : VirtioNetHdr) (l : Layout) (packet : Bytes) (offset : ℕ) {segments : List Bytes}
    → Fits l packet
    → Segments offload l packet offset segments
    → payloads l.headers segments ≡ drop offset (drop l.headers packet)
unfolding payloads chunk_at
Segments-payload offload l packet offset fits (end over) =
    sym
      (drop-all offset (drop l.headers packet) (omega (arith, over, length-drop l.headers packet)))
Segments-payload offload l packet offset fits (next segment on built rest) =
    ap₂ (λ (a b : Bytes). a ++ b)
      (build-chunk offload l packet offset segment fits.tcp_in fits.headers_in built).1
      (Segments-payload offload l packet (offset + offload.gso_size) fits rest)
    ∙ slice_rest offset offload.gso_size (drop l.headers packet)

Segments-small :
    (offload : VirtioNetHdr) (l : Layout) (packet : Bytes) (offset : ℕ) {segments : List Bytes}
    → Fits l packet
    → Segments offload l packet offset segments
    → All (λ segment. length segment ≤ l.headers + offload.gso_size) segments
Segments-small offload l packet offset fits (end over) = tt
Segments-small offload l packet offset fits (next segment on built rest) = (
  omega (
    arith,
    (build-chunk offload l packet offset segment fits.tcp_in fits.headers_in built).0,
    length-chunk offload l packet offset,
  ),
  Segments-small offload l packet (offset + offload.gso_size) fits rest,
)

-- The packets that a packet with metadata for segmentation becomes: none is longer than the
-- headers and a segment, and one after the other their payloads are that of the packet, if it
-- takes more than one segment.
pub segment-payload :
    (offload : VirtioNetHdr) (packet : Bytes) (l : Layout) (segments : List Bytes)
    → layout_of offload packet ≡ done l
    → offload.gso_size < length packet - l.headers
    → segment_tcp_gso_packet offload packet ≡ done segments
    → (payloads l.headers segments ≡ drop l.headers packet)
      × All (λ segment. length segment ≤ l.headers + offload.gso_size) segments
segment-payload offload packet l segments laid long made =
    let (fits, positive) = layout-Fits offload packet l laid in
    let all = segmented offload l packet segments laid long made in
    (Segments-payload offload l packet 0 fits all, Segments-small offload l packet 0 fits all)
