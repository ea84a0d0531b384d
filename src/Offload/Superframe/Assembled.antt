-- ===== src/Offload/Superframe/Assembled.antt =====
-- src/tunnel/offload.rs: the frame that `assemble_tcp_gso_superframe` makes of a planned run.
use ezvpn.Prelude.{
  ℕ, ◌+◌, ◌-◌, ◌%◌, ◌≤◌, ◌<◌, ◌≡◌, ◌⊎◌, ◌∙◌, ap, List, [], ◌∷◌, ◌++◌, length, take, Bytes, to_be2,
  arith, length-append, length-take, Bool-cases, inl, inr,
}
use ezvpn.Packet.{byte}
use ezvpn.Offload.{done}
use ezvpn.Offload.Fields.{
  put, update_ipv4_lengths_and_checksum, update_ipv6_payload_length, with_header_checksum,
}
use ezvpn.Offload.Writes.{get_or-put}
use ezvpn.Offload.Segments.{TcpSegmentMeta, header_len}
use ezvpn.Offload.Segments.Parsed.{Parsed}
use ezvpn.Offload.Segmentation.Keeps.{Keeps, Keeps-trans, put2-Keeps, rewrite-Keeps}
use ezvpn.Offload.Segmentation.Steps.{byte-take}
use ezvpn.Offload.Superframe.{payloads, update_ip}

-- Bytes that the update of the lengths leaves, in both versions.
abbrev pub Untouched : ℕ → Type 0
Untouched k = (6 ≤ k) × ((k < 10) ⊎ (12 ≤ k))

-- The update of an IP header, which succeeds on the header of a parsed segment.
pub record Updated (headers : ℕ) (p q : Bytes) : Type 0 where
  pub keeps : Keeps headers p q
  pub byte_kept : (k : ℕ) → Untouched k → byte q k ≡ byte p k

header_checksum_byte :
    (ihl k : ℕ) (p : Bytes) → Untouched k → byte (with_header_checksum ihl p) k ≡ byte p k
header_checksum_byte ihl k p (low, inl h) =
    get_or-put k 10 _ (put 10 (0 ∷ 0 ∷ []) p) 0 (inl h) ∙ get_or-put k 10 (0 ∷ 0 ∷ []) p 0 (inl h)
header_checksum_byte ihl k p (low, inr h) =
    get_or-put k 10 _ (put 10 (0 ∷ 0 ∷ []) p) 0 (inr h) ∙ get_or-put k 10 (0 ∷ 0 ∷ []) p 0 (inr h)

update4-Updated :
    (headers ihl len : ℕ) (p : Bytes)
    → 20 ≤ headers
    → Updated headers p (with_header_checksum ihl (put 2 (to_be2 len) p))
update4-Updated headers ihl len p h = record {
  keeps =
      Keeps-trans (put2-Keeps headers 2 len p (omega arith) (omega arith))
        (rewrite-Keeps headers 10 _ (put 2 (to_be2 len) p) (omega arith) (omega arith));
  byte_kept = λ k left.
      header_checksum_byte ihl k (put 2 (to_be2 len) p) left
      ∙ get_or-put k 2 (to_be2 len) p 0 (inr (omega arith));
}

update6-Updated :
    (headers len : ℕ) (p : Bytes) → 20 ≤ headers → Updated headers p (put 4 (to_be2 len) p)
update6-Updated headers len p h = record {
  keeps = put2-Keeps headers 4 len p (omega arith) (omega arith);
  byte_kept = λ k left. get_or-put k 4 (to_be2 len) p 0 (inr left.0);
}

update4_gives :
    (p : Bytes) (len : ℕ)
    → byte p 9 ≡ 6
    → byte p 0 % 16 ≡ 5
    → 20 ≤ length p
    → len ≤ 65535
    → update_ipv4_lengths_and_checksum p len ≡ done (with_header_checksum 20 (put 2 (to_be2 len) p))
unfolding update_ipv4_lengths_and_checksum
update4_gives p len tcp words long small = ground arith

update6_gives :
    (p : Bytes) (len : ℕ)
    → 40 ≤ length p
    → 40 ≤ len
    → len ≤ 65535
    → update_ipv6_payload_length p len ≡ done (put 4 (to_be2 (len - 40)) p)
unfolding update_ipv6_payload_length
update6_gives p len long enough small = ground arith

-- The headers of the first segment, and the payloads.
unfoldable pub joined_ip : TcpSegmentMeta → Bytes → List Bytes → Bytes
joined_ip m first members = take (header_len m) first ++ payloads (header_len m) (first ∷ members)

module _ (first : Bytes) (m : TcpSegmentMeta) (members : List Bytes) (parsed : Parsed first m) where
  pub heads : length (take (header_len m) first) ≡ header_len m
  heads = omega (arith, length-take (header_len m) first, parsed.whole)

  pub length-joined_ip :
      length (joined_ip m first members)
      ≡ header_len m + length (payloads (header_len m) (first ∷ members))
  unfolding joined_ip
  length-joined_ip =
      length-append (take (header_len m) first) (payloads (header_len m) (first ∷ members))
      ∙ ap (λ n. n + length (payloads (header_len m) (first ∷ members))) heads

  pub joined_byte : (k : ℕ) → k < header_len m → byte (joined_ip m first members) k ≡ byte first k
  unfolding joined_ip
  joined_byte k h =
      byte-take k (header_len m) first (payloads (header_len m) (first ∷ members)) h
        (omega (arith, parsed.whole))

  pub update_succeeds :
      (len : ℕ)
      → header_len m ≤ len
      → len ≤ 65535
      → (q : Bytes) × (update_ip m.is_ipv6 (joined_ip m first members) len ≡ done q)
        × Updated (header_len m) (joined_ip m first members) q
  unfolding update_ip header_len joined_ip
  update_succeeds len long small =
      let p : Bytes = joined_ip m first members in
      elim (Bool-cases m.is_ipv6) [
        | inl six ↦
            let (offset, version) = parsed.ipv6 six in
            (
              put 4 (to_be2 (len - 40)) p,
              rw six (
                  update6_gives p len (omega (arith, length-joined_ip, offset)) (omega arith)
                    small),
              update6-Updated (header_len m) (len - 40) p (omega (arith, parsed.tcp_long)),
            )
        | inr four ↦
            let (offset, version, words, tcp) = parsed.ipv4 four in
            (
              with_header_checksum 20 (put 2 (to_be2 len) p),
              rw four (
                  update4_gives p len (joined_byte 9 (omega (arith, offset)) ∙ tcp)
                    (ap (λ b. b % 16) (joined_byte 0 (omega (arith, offset))) ∙ words)
                    (omega (arith, length-joined_ip, offset)) small),
              update4-Updated (header_len m) 20 len p (omega (arith, parsed.tcp_long)),
            )
      ]
