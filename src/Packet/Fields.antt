-- ===== src/Packet/Fields.antt =====
-- The parsers of src/tunnel/server.rs on packets with a well-formed header.
use mathlib.Core.List.{append_assoc}
use ezvpn.Prelude.{
  ℕ, ◌/◌, ◌^◌, ◌≤◌, ◌<◌, ◌≡◌, refl, ap, ◌∙◌, sym, some, ◌++◌, arith, length, length-append,
  get_or-append_left, slice, slice_middle, Bytes, from_be, to_be4, from_be-to_be4,
}
use ezvpn.Packet.{byte, v4, v6, extract_source_ip, extract_dest_ip, read_ipv4_addr, read_ipv6_addr}

source_v4 :
    (p : Bytes)
    → 20 ≤ length p
    → byte p 0 / 16 ≡ 4
    → extract_source_ip p ≡ some (v4 (read_ipv4_addr p 12))
unfolding extract_source_ip
source_v4 p len version = ground arith

dest_v4 :
    (p : Bytes)
    → 20 ≤ length p
    → byte p 0 / 16 ≡ 4
    → extract_dest_ip p ≡ some (v4 (read_ipv4_addr p 16))
unfolding extract_dest_ip
dest_v4 p len version = ground arith

source_v6 :
    (p : Bytes)
    → 40 ≤ length p
    → byte p 0 / 16 ≡ 6
    → extract_source_ip p ≡ some (v6 (read_ipv6_addr p 8))
unfolding extract_source_ip
source_v6 p len version = ground arith

dest_v6 :
    (p : Bytes)
    → 40 ≤ length p
    → byte p 0 / 16 ≡ 6
    → extract_dest_ip p ≡ some (v6 (read_ipv6_addr p 24))
unfolding extract_dest_ip
dest_v6 p len version = ground arith

-- Both addresses of an IPv4 header are read back, whatever its other fields, and whatever follows.
pub ipv4_addresses :
    (header rest : Bytes) (src dst : ℕ)
    → length header ≡ 12
    → byte header 0 / 16 ≡ 4
    → src < 2 ^ 32
    → dst < 2 ^ 32
    → let packet = header ++ (to_be4 src ++ (to_be4 dst ++ rest)) in
      (extract_source_ip packet ≡ some (v4 src)) × (extract_dest_ip packet ≡ some (v4 dst))
unfolding read_ipv4_addr
ipv4_addresses header rest src dst len version hs hd = (
  source_v4 packet long kind
      ∙ ap (λ b. some (v4 (from_be b))) (slice_middle header (to_be4 src) _ 12 16 len refl)
      ∙ ap (λ n. some (v4 n)) (from_be-to_be4 src hs),
  dest_v4 packet long kind
      ∙ ap (λ b. some (v4 (from_be b)))
          (ap (slice 16 20) (sym (append_assoc header (to_be4 src) (to_be4 dst ++ rest)))
            ∙ slice_middle (header ++ to_be4 src) (to_be4 dst) rest 16 20
                (omega (arith, length-append header (to_be4 src))) refl)
      ∙ ap (λ n. some (v4 n)) (from_be-to_be4 dst hd),
)
  where
    packet : Bytes
    packet = header ++ (to_be4 src ++ (to_be4 dst ++ rest))

    long : 20 ≤ length packet
    long = omega (arith, length-append header (to_be4 src ++ (to_be4 dst ++ rest)))

    kind : byte packet 0 / 16 ≡ 4
    kind =
        rw (get_or-append_left header (to_be4 src ++ (to_be4 dst ++ rest)) 0 0 (omega arith))
          version

-- So are those of an IPv6 header, as the 16 bytes that hold them.
pub ipv6_addresses :
    (header src dst rest : Bytes)
    → length header ≡ 8
    → byte header 0 / 16 ≡ 6
    → length src ≡ 16
    → length dst ≡ 16
    → let packet = header ++ (src ++ (dst ++ rest)) in
      (extract_source_ip packet ≡ some (v6 (from_be src)))
      × (extract_dest_ip packet ≡ some (v6 (from_be dst)))
unfolding read_ipv6_addr
ipv6_addresses header src dst rest len version hs hd = (
  source_v6 packet long kind
      ∙ ap (λ b. some (v6 (from_be b)))
          (slice_middle header src (dst ++ rest) 8 24 len (omega arith)),
  dest_v6 packet long kind
      ∙ ap (λ b. some (v6 (from_be b)))
          (ap (slice 24 40) (sym (append_assoc header src (dst ++ rest)))
            ∙ slice_middle (header ++ src) dst rest 24 40 (omega (arith, length-append header src))
                (omega arith)),
)
  where
    packet : Bytes
    packet = header ++ (src ++ (dst ++ rest))

    long : 40 ≤ length packet
    long = omega (
      arith,
      length-append header (src ++ (dst ++ rest)),
      length-append src (dst ++ rest),
      length-append dst rest,
    )

    kind : byte packet 0 / 16 ≡ 6
    kind = rw (get_or-append_left header (src ++ (dst ++ rest)) 0 0 (omega arith)) version
