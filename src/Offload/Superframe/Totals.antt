-- ===== src/Offload/Superframe/Totals.antt =====
-- src/tunnel/offload.rs: the payloads of a run that `plan_tun_write_groups` found.
use ezvpn.Prelude.{
  if_gave, ℕ, ◌+◌, ◌-◌, ◌≤◌, ◌<◌, ◌≡◌, refl, sym, ◌∙◌, ap, true, false, some, List, [], ◌∷◌, leb,
  length, Bytes, arith, drop, length-drop, length-append, Bool-cases, inl, inr,
}
use ezvpn.Offload.{done}
use ezvpn.Offload.Fields.{◌>>=◌, >>=-eq-done}
use ezvpn.Offload.Segments.{TcpSegmentMeta, header_len, parse_coalescible_tcp, can_chain}
use ezvpn.Offload.Segments.Parsed.{Parsed, parse_coalescible_tcp-Parsed, can_chain-shape}
use ezvpn.Offload.Plan.{Run, stop, last, more}
use ezvpn.Offload.Superframe.{total_payload, payloads}

done_eq : (a b : ℕ) → done a ≡ done b → a ≡ b
done_eq a b h = cc

same_headers :
    {p p' : Bytes} {m m' : TcpSegmentMeta}
    → Parsed p m
    → Parsed p' m'
    → can_chain p m p' m' ≡ true
    → header_len m' ≡ header_len m
unfolding header_len
same_headers {p} {p'} {m} {m'} a b chains =
    let (ip, tcp) = can_chain-shape p m p' m' chains in
    elim (Bool-cases m.is_ipv6) [
      | inl six ↦ omega (arith, tcp, (a.ipv6 six).0, (b.ipv6 (ip ∙ six)).0)
      | inr four ↦ omega (arith, tcp, (a.ipv4 four).0, (b.ipv4 (ip ∙ four)).0)
    ]

total-cons :
    (headers n : ℕ) (p : Bytes) (ps : List Bytes)
    → headers < length p
    → total_payload headers ps ≡ done n
    → total_payload headers (p ∷ ps) ≡ done (length p - headers + n)
unfolding total_payload
total-cons headers n p ps longer rest =
    let test : leb (length p) headers ≡ false = ground (arith, longer) in
    rw test (ap (λ t. t >>= λ k. done (length p - headers + k)) rest)

-- The payloads of a run have a sum, which keeps the merged packet within 16 bits.
Run-total :
    (headers seg merged : ℕ) (prev : Bytes) (m : TcpSegmentMeta) {members : List Bytes}
    → headers ≡ header_len m
    → Parsed prev m
    → merged ≤ 65535
    → Run seg merged prev m members
    → (n : ℕ) × (total_payload headers members ≡ done n)
      × (merged + n ≤ 65535)
      × (length members ≤ n)
unfolding total_payload
Run-total headers seg merged prev m same parsed small stop = (0, refl, omega arith, omega arith)
Run-total headers seg merged prev m same parsed small (last packet m' is short fits chains) =
    let parsed' = parse_coalescible_tcp-Parsed packet m' is in
    let heads = same_headers parsed parsed' chains in
    (
      length packet - headers + 0,
      total-cons headers 0 packet [] (omega (arith, same, heads, parsed'.whole, parsed'.full)) refl,
      omega (arith, same, heads, parsed'.whole, fits),
      omega (arith, same, heads, parsed'.whole, parsed'.full),
    )
Run-total headers seg merged prev m same parsed small
      (more packet m' rest is full fits chains run) =
    let parsed' = parse_coalescible_tcp-Parsed packet m' is in
    let heads = same_headers parsed parsed' chains in
    let (n, total, bound, counted) =
      Run-total headers seg (merged + m'.payload_len) packet m' (same ∙ sym heads) parsed' fits
        run in
    (
      length packet - headers + n,
      total-cons headers n packet rest (omega (arith, same, heads, parsed'.whole, parsed'.full))
          total,
      omega (arith, same, heads, parsed'.whole, bound),
      omega (arith, same, heads, parsed'.whole, parsed'.full, counted),
    )

Run-small :
    (seg merged : ℕ) (prev : Bytes) (m : TcpSegmentMeta) {members : List Bytes}
    → 1 ≤ length members
    → Run seg merged prev m members
    → merged ≤ 65535
Run-small seg merged prev m some_members stop = absurd (omega arith)
Run-small seg merged prev m some_members (last packet m' is short fits chains) = omega arith
Run-small seg merged prev m some_members (more packet m' rest is full fits chains run) = omega arith

-- The sum of the payloads of a run with its first segment.
pub total_payload_lem :
    (first : Bytes) (m : TcpSegmentMeta) (members : List Bytes)
    → parse_coalescible_tcp first ≡ some m
    → 1 ≤ length members
    → Run m.payload_len (header_len m + m.payload_len) first m members
    → (n : ℕ) × (total_payload (header_len m) (first ∷ members) ≡ done n)
      × (header_len m + n ≤ 65535)
      × (m.payload_len < n)
total_payload_lem first m members is some_members run =
    let parsed = parse_coalescible_tcp-Parsed first m is in
    let (n, total, bound, positive) =
      Run-total (header_len m) m.payload_len (header_len m + m.payload_len) first m refl parsed
        (Run-small _ _ first m some_members run) run in
    (
      length first - header_len m + n,
      total-cons (header_len m) n first members (omega (arith, parsed.whole, parsed.full)) total,
      omega (arith, parsed.whole, bound),
      omega (arith, parsed.whole, positive, some_members),
    )

pub total-length-payloads :
    (headers n : ℕ) (ps : List Bytes)
    → total_payload headers ps ≡ done n
    → length (payloads headers ps) ≡ n
unfolding total_payload payloads
total-length-payloads headers n [] made = ground (arith, made)
total-length-payloads headers n (p ∷ ps) made = elim (if_gave (leb (length p) headers) _ _ made) [
  | inl (short, refused) ↦ cc
  | inr (longer, chain) ↦
      let (k, rest, at) = >>=-eq-done (total_payload headers ps) _ chain in
      omega (
        arith,
        length-append (drop headers p) (payloads headers ps),
        length-drop headers p,
        total-length-payloads headers k ps rest,
        done_eq _ n at,
      )
]
