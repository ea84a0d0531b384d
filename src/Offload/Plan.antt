-- ===== src/Offload/Plan.antt =====
-- src/tunnel/offload.rs: what the groups of `plan_tun_write_groups` are.
use ezvpn.Prelude.{
  ℕ, zero, suc, ◌+◌, ◌≤◌, ◌≡◌, refl, sym, subst, Bool, true, false, not, none, some, List, [], ◌∷◌,
  ◌++◌, ltb, leb, length, take, drop, Bytes, arith, le→leb, take-append-drop, length-take,
  length-drop, Option-cases, Bool-cases, ◌||◌, inl, inr,
}
use ezvpn.Offload.Segments.{
  TcpSegmentMeta, header_len, parse_coalescible_tcp, can_chain, extend, joined, plan_from,
  plan_tun_write_groups,
}

-- Segments that continue a run: all carry `seg` bytes but the last, which may carry fewer, each
-- chains to the one before it, and the merged packet fits 16 bits.
pub data Run (seg : ℕ) : ℕ → Bytes → TcpSegmentMeta → List Bytes → Type 0 where
  stop : {merged : ℕ} {prev : Bytes} {m : TcpSegmentMeta} → Run seg merged prev m []
  last :
      {merged : ℕ} {prev : Bytes} {m : TcpSegmentMeta} (packet : Bytes) (next : TcpSegmentMeta)
      → parse_coalescible_tcp packet ≡ some next
      → next.payload_len ≤ seg
      → merged + next.payload_len ≤ 65535
      → can_chain prev m packet next ≡ true
      → Run seg merged prev m (packet ∷ [])
  more :
      {merged : ℕ} {prev : Bytes} {m : TcpSegmentMeta} (packet : Bytes) (next : TcpSegmentMeta)
      (rest : List Bytes)
      → parse_coalescible_tcp packet ≡ some next
      → next.payload_len ≡ seg
      → merged + next.payload_len ≤ 65535
      → can_chain prev m packet next ≡ true
      → Run seg (merged + next.payload_len) packet next rest
      → Run seg merged prev m (packet ∷ rest)

-- Groups that cover a batch from an index on, in order: single packets, and runs of at least two.
pub data Planned : ℕ → List Bytes → List (ℕ × ℕ × Bool) → Type 0 where
  end : {i : ℕ} → Planned i [] []
  single :
      {i : ℕ} (packet : Bytes) {rest : List Bytes} {groups : List (ℕ × ℕ × Bool)}
      → Planned (i + 1) rest groups
      → Planned i (packet ∷ rest) ((i, i + 1, false) ∷ groups)
  run :
      {i : ℕ} (first : Bytes) (m : TcpSegmentMeta) (members : List Bytes) {rest : List Bytes}
      {groups : List (ℕ × ℕ × Bool)}
      → parse_coalescible_tcp first ≡ some m
      → 1 ≤ length members
      → Run m.payload_len (header_len m + m.payload_len) first m members
      → Planned (i + suc (length members)) rest groups
      → Planned i (first ∷ (members ++ rest)) ((i, i + suc (length members), true) ∷ groups)

abbrev stops : ℕ → ℕ → Bytes → TcpSegmentMeta → Bytes → TcpSegmentMeta → Bool
stops seg merged prev m packet next =
    ltb seg next.payload_len
    || ltb 65535 (merged + next.payload_len)
    || not (can_chain prev m packet next)

goes_on :
    (seg merged : ℕ) (prev : Bytes) (m : TcpSegmentMeta) (packet : Bytes) (next : TcpSegmentMeta)
    → stops seg merged prev m packet next ≡ false
    → (next.payload_len ≤ seg)
      × (merged + next.payload_len ≤ 65535)
      × (can_chain prev m packet next ≡ true)
goes_on seg merged prev m packet next on = ground arith

extend-Run :
    (seg merged : ℕ) (prev : Bytes) (m : TcpSegmentMeta) (batch : List Bytes)
    → Run seg merged prev m (take (extend seg merged prev m batch) batch)
unfolding extend
extend-Run seg merged prev m [] = stop
extend-Run seg merged prev m (packet ∷ rest) = elim (Option-cases (parse_coalescible_tcp packet)) [
  | inl other ↦ rw (other, extend) stop
  | inr (next, parsed) ↦
      rw (parsed, extend)
        (elim (Bool-cases (stops seg merged prev m packet next)) [
          | inl over ↦ rw over stop
          | inr on ↦
              let fits = goes_on seg merged prev m packet next on in
              rw on (elim (Bool-cases (ltb next.payload_len seg)) [
                | inl short ↦ rw short (last packet next parsed fits.0 fits.1 fits.2)
                | inr full ↦ rw full (
                    more packet next
                      (take (extend seg (merged + next.payload_len) packet next rest) rest) parsed
                      (ground (arith, full, fits.0)) fits.1 fits.2
                      (extend-Run seg (merged + next.payload_len) packet next rest))
              ])
        ])
]

extend_le :
    (seg merged : ℕ) (prev : Bytes) (m : TcpSegmentMeta) (batch : List Bytes)
    → extend seg merged prev m batch ≤ length batch
unfolding extend
extend_le seg merged prev m [] = omega arith
extend_le seg merged prev m (packet ∷ rest) = elim (Option-cases (parse_coalescible_tcp packet)) [
  | inl other ↦ rw (other, extend) (omega arith)
  | inr (next, parsed) ↦
      rw (parsed, extend)
        (ground (arith, extend_le seg (merged + next.payload_len) packet next rest))
]

-- The run of a first packet and the `n` that join it.
group_of :
    (i n : ℕ) (first : Bytes) (m : TcpSegmentMeta) (rest : List Bytes)
    (groups : List (ℕ × ℕ × Bool))
    → parse_coalescible_tcp first ≡ some m
    → Run m.payload_len (header_len m + m.payload_len) first m (take n rest)
    → n ≤ length rest
    → Planned (i + suc n) (drop n rest) groups
    → Planned i (first ∷ rest) ((i, i + suc n, leb 2 (suc n)) ∷ groups)
group_of i zero first m rest groups parsed members fits planned = single first planned
group_of i (suc n) first m rest groups parsed members fits planned =
    rw (le→leb 2 (suc (suc n)) (omega arith)) (
      subst (λ (bs : List Bytes). Planned i (first ∷ bs) ((i, i + suc (suc n), true) ∷ groups))
        (take-append-drop (suc n) rest)
        (subst
          (λ (k : ℕ).
            Planned i (first ∷ (take (suc n) rest ++ drop (suc n) rest))
              ((i, i + suc k, true) ∷ groups))
          taken
          (run first m (take (suc n) rest) parsed (omega (arith, taken)) members (
            subst (λ (k : ℕ). Planned (i + suc k) (drop (suc n) rest) groups) (sym taken)
              planned))))
  where
    taken : length (take (suc n) rest) ≡ suc n
    taken = omega (arith, length-take (suc n) rest)

abbrev Grouped : ℕ → Bytes → List Bytes → List (ℕ × ℕ × Bool) → ℕ → Type 0
Grouped i first rest groups n =
    Planned (i + suc n) (drop n rest) groups
    → Planned i (first ∷ rest) ((i, i + suc n, leb 2 (suc n)) ∷ groups)

joined-none :
    (first : Bytes) (rest : List Bytes) → parse_coalescible_tcp first ≡ none → joined first rest ≡ 0
unfolding joined
joined-none first rest other = rw (other, joined) refl

joined-some :
    (first : Bytes) (rest : List Bytes) (m : TcpSegmentMeta)
    → parse_coalescible_tcp first ≡ some m
    → joined first rest ≡ extend m.payload_len (header_len m + m.payload_len) first m rest
unfolding joined
joined-some first rest m parsed = rw (parsed, joined) refl

group_Planned :
    (i : ℕ) (first : Bytes) (rest : List Bytes) (groups : List (ℕ × ℕ × Bool))
    → Planned (i + suc (joined first rest)) (drop (joined first rest) rest) groups
    → Planned i
        (first ∷ rest)
        ((i, i + suc (joined first rest), leb 2 (suc (joined first rest))) ∷ groups)
group_Planned i first rest groups planned = elim (Option-cases (parse_coalescible_tcp first)) [
  | inl other ↦
      subst (Grouped i first rest groups) (sym (joined-none first rest other)) (λ p. single first p)
        planned
  | inr (m, parsed) ↦
      let n : ℕ = extend m.payload_len (header_len m + m.payload_len) first m rest in
      subst (Grouped i first rest groups) (sym (joined-some first rest m parsed))
        (group_of i n first m rest groups parsed
          (extend-Run m.payload_len (header_len m + m.payload_len) first m rest)
          (extend_le m.payload_len (header_len m + m.payload_len) first m rest))
        planned
]

plan_from-Planned :
    (fuel i : ℕ) (batch : List Bytes)
    → length batch ≤ fuel
    → Planned i batch (plan_from fuel i batch)
unfolding plan_from
plan_from-Planned zero i [] enough = end
plan_from-Planned zero i (first ∷ rest) enough = absurd (omega arith)
plan_from-Planned (suc fuel) i [] enough = end
plan_from-Planned (suc fuel) i (first ∷ rest) enough =
    let n : ℕ = joined first rest in
    group_Planned i first rest (plan_from fuel (i + suc n) (drop n rest))
      (plan_from-Planned fuel (i + suc n) (drop n rest) (omega (arith, enough, length-drop n rest)))

-- The groups planned for a batch cover it from its first packet to its last, in order and without
-- a gap: each is a single packet, not to be merged, or a run of at least two segments of one flow
-- whose payloads have one size but for the last, and whose merged packet fits 16 bits.
pub plan-Planned : (batch : List Bytes) → Planned 0 batch (plan_tun_write_groups batch)
unfolding plan_tun_write_groups
plan-Planned batch = plan_from-Planned (length batch) 0 batch (omega arith)
