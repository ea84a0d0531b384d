-- ===== src/Offload/Segmentation/Build.antt =====
-- src/tunnel/offload.rs: one segment of `segment_tcp_gso_into`.
use ezvpn.Prelude.{
  if_gave, ℕ, ◌+◌, ◌-◌, ◌*◌, ◌%◌, ◌^◌, ◌≤◌, ◌<◌, ◌≡◌, inl, inr, sym, ◌∙◌, ap, Bool, true, false,
  not, [], ◌∷◌, ◌++◌, ltb, leb, nat_eq, subst, if◌then◌else◌, length, take, drop, slice, min, Bytes,
  to_be2, arith, All-append, length-append, length-take, drop-append_length,
}
use ezvpn.Packet.{byte}
use ezvpn.Offload.{Outcome, done, VirtioNetHdr}
use ezvpn.Offload.Fields.{
  >>=-eq-done, put, with_header_checksum, update_ipv4_lengths_and_checksum,
  update_ipv6_payload_length, tcp_checksum_ipv4, tcp_checksum_ipv6,
}
use ezvpn.Offload.Writes.{IsOctets, to_be4-IsOctets, take-IsOctets, drop-IsOctets}
use ezvpn.Offload.Segmentation.Keeps.{Keeps, Keeps-trans, put-Keeps, put2-Keeps, rewrite-Keeps}
use ezvpn.Offload.Segmentation.{
  Layout, with_tcp_fields, with_lengths, with_tcp_checksum, build_segment, middle_flags,
}

middle_flags_lt : (flags : ℕ) → middle_flags flags < 256
unfolding middle_flags
middle_flags_lt flags = omega arith

fields-Keeps :
    (l : Layout) (packet : Bytes) (offset : ℕ) (is_last : Bool) (scratch : Bytes)
    → l.tcp_offset + 20 ≤ l.headers
    → Keeps l.headers scratch (with_tcp_fields l packet offset is_last scratch)
unfolding with_tcp_fields
fields-Keeps l packet offset true scratch h =
    put-Keeps l.headers _ _ scratch (omega arith) (omega arith) (to_be4-IsOctets _)
fields-Keeps l packet offset false scratch h =
    Keeps-trans (put-Keeps l.headers _ _ scratch (omega arith) (omega arith) (to_be4-IsOctets _)) (
      put-Keeps l.headers _ _ _ (omega arith) (omega arith)
        (middle_flags_lt (byte packet (l.tcp_offset + 13)), tt))

-- What the update of an IPv4 header does, and when.
pub update4_done :
    (p q : Bytes) (len : ℕ)
    → update_ipv4_lengths_and_checksum p len ≡ done q
    → (with_header_checksum (byte p 0 % 16 * 4) (put 2 (to_be2 len) p) ≡ q)
      × (20 ≤ length p)
      × (20 ≤ byte p 0 % 16 * 4)
      × (byte p 0 % 16 * 4 ≤ length p)
      × (len < 2 ^ 16)
unfolding update_ipv4_lengths_and_checksum
update4_done p q len made = ground arith

pub update6_done :
    (p q : Bytes) (len : ℕ)
    → update_ipv6_payload_length p len ≡ done q
    → (put 4 (to_be2 (len - 40)) p ≡ q) × (40 ≤ length p) × (40 ≤ len) × (len - 40 < 2 ^ 16)
unfolding update_ipv6_payload_length
update6_done p q len made = ground arith

header_checksum-Keeps :
    (headers ihl : ℕ) (p : Bytes) → 20 ≤ headers → Keeps headers p (with_header_checksum ihl p)
header_checksum-Keeps headers ihl p h = rewrite-Keeps headers 10 _ p (omega arith) (omega arith)

pub lengths-Keeps :
    (headers version : ℕ) (p q : Bytes) (len : ℕ)
    → 20 ≤ headers
    → with_lengths version p len ≡ done q
    → Keeps headers p q
unfolding with_lengths
lengths-Keeps headers version p q len h made = elim (if_gave (nat_eq version 4) _ _ made) [
  | inl (four, made4) ↦ subst (Keeps headers p) (update4_done p q len made4).0 (
      Keeps-trans (put2-Keeps headers 2 len p (omega arith) (omega arith))
        (header_checksum-Keeps headers _ _ h))
  | inr (six, made6) ↦
      subst (Keeps headers p) (update6_done p q len made6).0
        (put2-Keeps headers 4 (len - 40) p (omega arith) (omega arith))
]

-- The checksum that the segment is given.
unfoldable pub checksum_of : Layout → Bytes → Outcome ℕ
checksum_of l cleared =
    if nat_eq l.version 4
    then tcp_checksum_ipv4 cleared l.tcp_offset
    else tcp_checksum_ipv6 cleared l.tcp_offset

pub checksum_done :
    (l : Layout) (p q : Bytes)
    → with_tcp_checksum l p ≡ done q
    → (c : ℕ) × (checksum_of l (put (l.tcp_offset + 16) (0 ∷ 0 ∷ []) p) ≡ done c)
      × (put (l.tcp_offset + 16) (to_be2 c) (put (l.tcp_offset + 16) (0 ∷ 0 ∷ []) p) ≡ q)
unfolding with_tcp_checksum checksum_of
checksum_done l p q made =
    let (c, gave, at) =
      >>=-eq-done (checksum_of l (put (l.tcp_offset + 16) (0 ∷ 0 ∷ []) p)) _ made in
    (c, gave, ground (arith, at))

pub checksum-Keeps :
    (l : Layout) (p q : Bytes)
    → l.tcp_offset + 20 ≤ l.headers
    → with_tcp_checksum l p ≡ done q
    → Keeps l.headers p q
checksum-Keeps l p q h made =
    let (c, gave, at) = checksum_done l p q made in
    subst (Keeps l.headers p) at
      (rewrite-Keeps l.headers (l.tcp_offset + 16) c p (omega arith) (omega arith))

-- The part of the payload that a round takes.
unfoldable pub chunk_at : VirtioNetHdr → Layout → Bytes → ℕ → Bytes
chunk_at offload l packet offset =
    let payload : Bytes = drop l.headers packet in
    slice offset (min (offset + offload.gso_size) (length payload)) payload

-- The packet before the lengths are updated.
unfoldable pub numbered_at : VirtioNetHdr → Layout → Bytes → ℕ → Bytes
unfolding chunk_at
numbered_at offload l packet offset =
    let payload : Bytes = drop l.headers packet in
    with_tcp_fields l packet offset
      (not (ltb (min (offset + offload.gso_size) (length payload)) (length payload)))
      (take l.headers packet ++ chunk_at offload l packet offset)

-- The steps of a round that succeeds.
pub build_done :
    (offload : VirtioNetHdr) (l : Layout) (packet : Bytes) (offset : ℕ) (segment : Bytes)
    → build_segment offload l packet offset ≡ done segment
    → (updated : Bytes) × (with_lengths l.version
          (numbered_at offload l packet offset)
          (l.headers + length (chunk_at offload l packet offset))
        ≡ done updated)
      × (with_tcp_checksum l updated ≡ done segment)
unfolding build_segment chunk_at numbered_at
build_done offload l packet offset segment made = elim (if_gave (leb (2 ^ 32) offset) _ _ made) [
  | inl (late, refused) ↦ cc
  | inr (soon, go) ↦ >>=-eq-done _ _ go
]

-- The headers and the part of the payload, before a field is written.
unfoldable pub scratch_at : VirtioNetHdr → Layout → Bytes → ℕ → Bytes
unfolding chunk_at
scratch_at offload l packet offset = take l.headers packet ++ chunk_at offload l packet offset

heads_in :
    (l : Layout) (packet : Bytes)
    → l.headers ≤ length packet
    → length (take l.headers packet) ≡ l.headers
heads_in l packet fits = omega (arith, length-take l.headers packet)

pub length-scratch :
    (offload : VirtioNetHdr) (l : Layout) (packet : Bytes) (offset : ℕ)
    → l.headers ≤ length packet
    → length (scratch_at offload l packet offset)
      ≡ l.headers + length (chunk_at offload l packet offset)
unfolding scratch_at
length-scratch offload l packet offset fits =
    length-append (take l.headers packet) (chunk_at offload l packet offset)
    ∙ ap (λ n. n + length (chunk_at offload l packet offset)) (heads_in l packet fits)

pub numbered-Keeps :
    (offload : VirtioNetHdr) (l : Layout) (packet : Bytes) (offset : ℕ)
    → l.tcp_offset + 20 ≤ l.headers
    → Keeps l.headers (scratch_at offload l packet offset) (numbered_at offload l packet offset)
unfolding numbered_at scratch_at
numbered-Keeps offload l packet offset h = fields-Keeps l packet offset _ _ h

pub length-numbered :
    (offload : VirtioNetHdr) (l : Layout) (packet : Bytes) (offset : ℕ)
    → l.tcp_offset + 20 ≤ l.headers
    → l.headers ≤ length packet
    → length (numbered_at offload l packet offset)
      ≡ l.headers + length (chunk_at offload l packet offset)
length-numbered offload l packet offset h fits =
    (numbered-Keeps offload l packet offset h).same_length
    ∙ length-scratch offload l packet offset fits

-- A segment is the headers with other fields, and its part of the payload.
pub build-chunk :
    (offload : VirtioNetHdr) (l : Layout) (packet : Bytes) (offset : ℕ) (segment : Bytes)
    → l.tcp_offset + 20 ≤ l.headers
    → l.headers ≤ length packet
    → build_segment offload l packet offset ≡ done segment
    → (length segment ≡ l.headers + length (chunk_at offload l packet offset))
      × (drop l.headers segment ≡ chunk_at offload l packet offset)
unfolding scratch_at
build-chunk offload l packet offset segment h fits made =
    let (updated, a, b) = build_done offload l packet offset segment made in
    let chunk : Bytes = chunk_at offload l packet offset in
    let keeps : Keeps l.headers (take l.headers packet ++ chunk) segment =
      Keeps-trans (numbered-Keeps offload l packet offset h) (
        Keeps-trans (lengths-Keeps l.headers l.version _ updated _ (omega arith) a)
          (checksum-Keeps l updated segment h b)) in
    (
      keeps.same_length ∙ length-scratch offload l packet offset fits,
      keeps.same_rest
          ∙ ap (λ n. drop n (take l.headers packet ++ chunk)) (sym (heads_in l packet fits))
          ∙ drop-append_length (take l.headers packet) chunk,
    )

-- The octets of a packet are those of its parts.
pub scratch-IsOctets :
    (offload : VirtioNetHdr) (l : Layout) (packet : Bytes) (offset : ℕ)
    → IsOctets packet
    → IsOctets (scratch_at offload l packet offset)
unfolding scratch_at chunk_at
scratch-IsOctets offload l packet offset octets =
    All-append (λ b. b < 256) (take l.headers packet) (chunk_at offload l packet offset)
      (take-IsOctets l.headers packet octets)
      (take-IsOctets _ _ (drop-IsOctets offset _ (drop-IsOctets l.headers packet octets)))
