-- ===== src/Offload/Segmentation/Emitted.antt =====
-- src/tunnel/offload.rs: a callback that never fails sees the packets that the collecting wrapper
-- lists, in their order.
use ezvpn.Prelude.{
  ℕ, zero, suc, ◌+◌, ◌-◌, ◌≡◌, refl, sym, ◌∙◌, ap, List, [], ◌∷◌, ◌++◌, leb, length, Bytes,
  Bool-cases, inl, inr,
}
use ezvpn.Offload.{Outcome, done, failed, VirtioNetHdr, needs_checksum}
use ezvpn.Offload.Segmentation.{
  Layout, layout_of, build_segment, emit_built, segment_loop, segment_at, segment_tcp_gso_into,
  collect,
}

-- The states of a callback over a list of packets.
unfoldable pub feed : {S : Type 0} → (S → Bytes → S) → S → List Bytes → S
feed f s [] = s
feed f s (p ∷ ps) = feed f (f s p) ps

feed-append :
    {S : Type 0} (f : S → Bytes → S) (s : S) (ps qs : List Bytes)
    → feed f s (ps ++ qs) ≡ feed f (feed f s ps) qs
unfolding feed
feed-append f s [] qs = refl
feed-append f s (p ∷ ps) qs = feed-append f (f s p) ps qs

module _ {S : Type 0} (f : S → Bytes → S) (start : S) where
  -- A callback that goes on whatever it is given.
  abbrev pub emit : S → Bytes → S × Outcome (Unit {0})
  emit s p = (f s p, done tt)

  -- The callback's work on what has been collected.
  abbrev pub Fed : S × Outcome (Unit {0}) → List Bytes × Outcome (Unit {0}) → Type 0
  Fed r c = r ≡ (feed f start c.0, c.1)

  emit-collect : (out : List Bytes) (p : Bytes) → Fed (emit (feed f start out) p) (collect out p)
  unfolding feed
  emit-collect out p = ap (λ s. (s, done tt)) (sym (feed-append f start out (p ∷ [])))

  built-Fed :
      (m : Outcome Bytes) (out : List Bytes) (k : S → S × Outcome (Unit {0}))
      (k' : List Bytes → List Bytes × Outcome (Unit {0}))
      → ((out' : List Bytes) → Fed (k (feed f start out')) (k' out'))
      → Fed (emit_built emit m (feed f start out) k) (emit_built collect m out k')
  unfolding emit_built feed
  built-Fed (failed e) out k k' next = refl
  built-Fed (done p) out k k' next =
      ap k (sym (feed-append f start out (p ∷ []))) ∙ next (out ++ p ∷ [])

  loop-Fed :
      (fuel : ℕ) (offload : VirtioNetHdr) (l : Layout) (packet : Bytes) (offset : ℕ)
      (out : List Bytes)
      → Fed
          (segment_loop emit fuel offload l packet offset (feed f start out))
          (segment_loop collect fuel offload l packet offset out)
  unfolding segment_loop emit_built
  loop-Fed zero offload l packet offset out = refl
  loop-Fed (suc fuel) offload l packet offset out =
      elim (Bool-cases (leb (length packet - l.headers) offset)) [
        | inl over ↦ rw over refl
        | inr on ↦ rw on (
            built-Fed (build_segment offload l packet offset) out
              (segment_loop emit fuel offload l packet (offset + offload.gso_size))
              (segment_loop collect fuel offload l packet (offset + offload.gso_size))
              (loop-Fed fuel offload l packet (offset + offload.gso_size)))
      ]

  at-Fed :
      (offload : VirtioNetHdr) (packet : Bytes) (m : Outcome Layout)
      → Fed (segment_at emit offload packet m start) (segment_at collect offload packet m [])
  unfolding segment_at feed
  at-Fed offload packet (failed e) = refl
  at-Fed offload packet (done l) =
      elim (Bool-cases (leb (length packet - l.headers) offload.gso_size)) [
        | inl short ↦ elim (Bool-cases (needs_checksum offload)) [
          | inl partial ↦ rw (short, partial) refl
          | inr whole ↦ rw (short, whole) refl
        ]
        | inr long ↦ rw long (loop-Fed (length packet - l.headers) offload l packet 0 [])
      ]

  pub segment-Fed :
      (offload : VirtioNetHdr) (packet : Bytes)
      → Fed
          (segment_tcp_gso_into emit offload packet start)
          (segment_tcp_gso_into collect offload packet [])
  unfolding segment_tcp_gso_into
  segment-Fed offload packet = at-Fed offload packet (layout_of offload packet)
