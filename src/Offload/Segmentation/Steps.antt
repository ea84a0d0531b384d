-- ===== src/Offload/Segmentation/Steps.antt =====
-- src/tunnel/offload.rs: when the steps of `segment_tcp_gso_into` succeed.
use ezvpn.Prelude.{
  ℕ, zero, suc, ◌+◌, ◌-◌, ◌*◌, ◌%◌, ◌^◌, ◌≤◌, ◌<◌, ◌≡◌, inl, refl, ◌∙◌, ap, [], ◌∷◌, ◌++◌, length,
  take, drop, Bytes, arith, Bool, true, false, to_be2, to_be4,
}
use ezvpn.Packet.{byte}
use ezvpn.Offload.{Outcome, done, VirtioNetHdr}
use ezvpn.Offload.Checksum.{add_bytes, finalize_checksum}
use ezvpn.Offload.Fields.{
  ◌>>=◌, pseudo_ipv4, pseudo_ipv6, put, with_header_checksum, update_ipv4_lengths_and_checksum,
  update_ipv6_payload_length, tcp_checksum_ipv4, tcp_checksum_ipv6,
}
use ezvpn.Offload.Writes.{get_or-put}
use ezvpn.Offload.Segmentation.{Layout, with_tcp_fields}
use ezvpn.Offload.Segmentation.Build.{chunk_at, numbered_at, scratch_at}
use ezvpn.Offload.Segmentation.Loop.{Fits}

pub update4_succeeds :
    (p : Bytes) (len : ℕ)
    → byte p 9 ≡ 6
    → 20 ≤ byte p 0 % 16 * 4
    → byte p 0 % 16 * 4 ≤ length p
    → len < 2 ^ 16
    → (q : Bytes) × (update_ipv4_lengths_and_checksum p len ≡ done q)
unfolding update_ipv4_lengths_and_checksum
update4_succeeds p len tcp enough within small =
    (with_header_checksum (byte p 0 % 16 * 4) (put 2 (to_be2 len) p), ground arith)

pub update6_succeeds :
    (p : Bytes) (len : ℕ)
    → 40 ≤ length p
    → 40 ≤ len
    → len - 40 < 2 ^ 16
    → (q : Bytes) × (update_ipv6_payload_length p len ≡ done q)
unfolding update_ipv6_payload_length
update6_succeeds p len long enough small = (put 4 (to_be2 (len - 40)) p, ground arith)

pub tcp4_succeeds :
    (p : Bytes) (t : ℕ)
    → 20 ≤ length p
    → t < length p
    → length p - t < 2 ^ 16
    → (c : ℕ) × (tcp_checksum_ipv4 p t ≡ done c)
unfolding tcp_checksum_ipv4
tcp4_succeeds p t long within small =
    (finalize_checksum (add_bytes (pseudo_ipv4 p (length p - t)) (drop t p)), ground arith)

pub tcp6_succeeds :
    (p : Bytes) (t : ℕ)
    → 40 ≤ length p
    → t < length p
    → length p - t < 2 ^ 32
    → (c : ℕ) × (tcp_checksum_ipv6 p t ≡ done c)
unfolding tcp_checksum_ipv6
tcp6_succeeds p t long within small =
    (finalize_checksum (add_bytes (pseudo_ipv6 p (length p - t)) (drop t p)), ground arith)

-- A step that succeeds, under the rest of the chain.
pub >>=-done :
    {A B : Type 0} (m : Outcome A) (f : A → Outcome B) {a : A} {b : B}
    → m ≡ done a
    → f a ≡ done b
    → (m >>= f) ≡ done b
>>=-done m f h k = ap (λ m. m >>= f) h ∙ k

-- A byte before the fields of the TCP header that are written.
fields_byte :
    (l : Layout) (packet : Bytes) (offset : ℕ) (is_last : Bool) (scratch : Bytes) (k : ℕ)
    → k < l.tcp_offset + 4
    → byte (with_tcp_fields l packet offset is_last scratch) k ≡ byte scratch k
unfolding with_tcp_fields
fields_byte l packet offset true scratch k h =
    get_or-put k (l.tcp_offset + 4) (to_be4 _) scratch 0 (inl h)
fields_byte l packet offset false scratch k h =
    get_or-put k (l.tcp_offset + 13) (_ ∷ []) (put (l.tcp_offset + 4) (to_be4 _) scratch) 0
      (inl (omega arith))
    ∙ get_or-put k (l.tcp_offset + 4) (to_be4 _) scratch 0 (inl h)

pub byte-take :
    (k n : ℕ) (p rest : Bytes) → k < n → n ≤ length p → byte (take n p ++ rest) k ≡ byte p k
byte-take k zero p rest h j = absurd (omega arith)
byte-take k (suc n) [] rest h j = absurd (omega arith)
byte-take zero (suc n) (b ∷ p) rest h j = refl
byte-take (suc k) (suc n) (b ∷ p) rest h j = byte-take k n p rest (omega arith) (omega arith)

pub numbered_byte :
    (offload : VirtioNetHdr) (l : Layout) (packet : Bytes) (offset k : ℕ)
    → Fits l packet
    → k < l.tcp_offset + 4
    → byte (numbered_at offload l packet offset) k ≡ byte packet k
unfolding numbered_at scratch_at
numbered_byte offload l packet offset k fits h =
    fields_byte l packet offset _ (scratch_at offload l packet offset) k h
    ∙ byte-take k l.headers packet (chunk_at offload l packet offset) (omega (arith, fits.tcp_in))
        fits.headers_in
