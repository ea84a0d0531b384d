-- ===== src/Offload/Superframe/Joined.antt =====
-- src/tunnel/offload.rs: `assemble_tcp_gso_superframe` on a run of `plan_tun_write_groups`.
use ezvpn.Prelude.{
  ℕ, suc, ◌+◌, ◌≤◌, ◌<◌, ◌≡◌, refl, sym, ◌∙◌, ap, false, some, List, [], ◌∷◌, ◌++◌, ltb, length,
  take, drop, Bytes, to_be2, arith, drop-append_length, inl,
}
use ezvpn.Packet.{byte}
use ezvpn.Offload.{done, to_bytes}
use ezvpn.Offload.Fields.{put}
use ezvpn.Offload.Writes.{get_or-put}
use ezvpn.Offload.Segments.{TcpSegmentMeta, header_len, parse_coalescible_tcp}
use ezvpn.Offload.Segments.Parsed.{Parsed, parse_coalescible_tcp-Parsed}
use ezvpn.Offload.Plan.{Run}
use ezvpn.Offload.Segmentation.Keeps.{Keeps, Keeps-trans, rewrite-Keeps}
use ezvpn.Offload.Segmentation.Steps.{>>=-done}
use ezvpn.Offload.Superframe.{
  payloads, total_payload, virtio_for, with_partial, merged_frame, assemble_parsed,
  assemble_tcp_gso_superframe,
}
use ezvpn.Offload.Superframe.Totals.{total_payload_lem, total-length-payloads}
use ezvpn.Offload.Superframe.Assembled.{
  Untouched, Updated, joined_ip, heads, length-joined_ip, joined_byte, update_succeeds,
}

partial-Keeps :
    (m : TcpSegmentMeta) (n : ℕ) (p : Bytes)
    → 20 ≤ m.tcp_header_len
    → Keeps (header_len m) p (with_partial m n p)
unfolding with_partial header_len
partial-Keeps m n p h =
    rewrite-Keeps (header_len m) (m.ip_header_len + 16) _ p (omega arith) (omega arith)

partial_byte :
    (m : TcpSegmentMeta) (n : ℕ) (p : Bytes) (k : ℕ)
    → k < m.ip_header_len + 16
    → byte (with_partial m n p) k ≡ byte p k
unfolding with_partial
partial_byte m n p k h =
    get_or-put k (m.ip_header_len + 16) (to_be2 _) (put (m.ip_header_len + 16) (0 ∷ 0 ∷ []) p) 0
      (inl h)
    ∙ get_or-put k (m.ip_header_len + 16) (0 ∷ 0 ∷ []) p 0 (inl h)

-- A packet with the headers of the first segment, its lengths and checksums apart, and the payloads
-- of all.
pub record Joined (first : Bytes) (m : TcpSegmentMeta) (members : List Bytes) (ip : Bytes)
    : Type 0 where
  pub whole : length ip ≡ header_len m + length (payloads (header_len m) (first ∷ members))
  pub small : length ip ≤ 65535
  pub longer : m.payload_len < length (payloads (header_len m) (first ∷ members))
  pub payload : drop (header_len m) ip ≡ payloads (header_len m) (first ∷ members)
  pub first_kept : byte ip 0 ≡ byte first 0
  pub byte_kept : (k : ℕ) → Untouched k → k < m.ip_header_len + 16 → byte ip k ≡ byte first k

module _ (first : Bytes) (m : TcpSegmentMeta) (members : List Bytes) (parsed : Parsed first m) where
  behind :
      drop (length (take (header_len m) first)) (joined_ip m first members)
      ≡ payloads (header_len m) (first ∷ members)
  unfolding joined_ip
  behind =
      drop-append_length (take (header_len m) first) (payloads (header_len m) (first ∷ members))

  joined_ip-Joined :
      (n : ℕ) (q : Bytes)
      → total_payload (header_len m) (first ∷ members) ≡ done n
      → header_len m + n ≤ 65535
      → m.payload_len < n
      → Updated (header_len m) (joined_ip m first members) q
      → Joined first m members (with_partial m n q)
  unfolding header_len
  joined_ip-Joined n q total small longer updated =
      let keeps = Keeps-trans updated.keeps (partial-Keeps m n q parsed.tcp_long) in
      let len = length-joined_ip first m members parsed in
      let sum = total-length-payloads (header_len m) n (first ∷ members) total in
      record {
        whole = keeps.same_length ∙ len;
        small = omega (arith, keeps.same_length, len, sum, small);
        longer = omega (arith, sum, longer);
        payload =
            keeps.same_rest
            ∙ ap (λ k. drop k (joined_ip m first members)) (sym (heads first m members parsed))
            ∙ behind;
        first_kept =
            keeps.same_first
            ∙ joined_byte first m members parsed 0 (omega (arith, parsed.tcp_long));
        byte_kept = λ k left before.
            partial_byte m n q k before
            ∙ updated.byte_kept k left
            ∙ joined_byte first m members parsed k (omega (arith, parsed.tcp_long, before));
      }

-- A run of a plan is joined: the frame is the header for the device and a packet that carries the
-- payloads of the run, in order, behind the headers of the first segment.
pub assemble-Joined :
    (first : Bytes) (m : TcpSegmentMeta) (members : List Bytes)
    → parse_coalescible_tcp first ≡ some m
    → 1 ≤ length members
    → Run m.payload_len (header_len m + m.payload_len) first m members
    → (ip : Bytes) × (assemble_tcp_gso_superframe (first ∷ members)
        ≡ done (to_bytes (virtio_for m) ++ ip))
      × Joined first m members ip
unfolding assemble_tcp_gso_superframe assemble_parsed merged_frame joined_ip
assemble-Joined first m members is some_members run =
    let parsed = parse_coalescible_tcp-Parsed first m is in
    let (n, total, small, longer) = total_payload_lem first m members is some_members run in
    let (q, made, updated) =
      update_succeeds first m members parsed (header_len m + n) (omega arith) small in
    let fits : ltb 65535 (header_len m + n) ≡ false = ground (arith, small) in
    let many : ltb (suc (length members)) 2 ≡ false = ground (arith, some_members) in
    (
      with_partial m n q,
      rw many (
          rw (is, assemble_parsed)
            (>>=-done (total_payload (header_len m) (first ∷ members)) _ total
              (rw fits (>>=-done _ _ made refl)))),
      joined_ip-Joined first m members parsed n q total small longer updated,
    )
