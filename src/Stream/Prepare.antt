-- ===== src/Stream/Prepare.antt =====
-- src/tunnel/stream.rs: `prepare_ip_datagrams`, which turns a packet of the TUN device into datagrams.
use ezvpn.Prelude.{
  ℕ, ◌+◌, ◌%◌, ◌<◌, ◌≡◌, refl, sym, ◌∙◌, ap, Bool, not, Option, none, some, List, [], ◌∷◌, ◌++◌,
  leb, length, keep_if, Bytes, arith, Bool-cases, inl, inr,
}
use mathlib.Core.List.{append_assoc, append-nil}
use ezvpn.Server.{u64_mod}
use ezvpn.Offload.{Outcome, done, failed, VirtioNetHdr}
use ezvpn.Offload.Segmentation.{collect}
use ezvpn.Offload.Segmentation.Emitted.{feed}
use ezvpn.Offload.Materialize.{materialize_offload_into}
use ezvpn.Offload.Materialize.Emitted.{materialize-Fed}
use ezvpn.Stream.Batch.{DatagramSendOutcome, prepare_one_datagram, count_other, count_too_large}

abbrev pub Prepared : Type 0
Prepared = List Bytes × DatagramSendOutcome

-- The callback, which never fails.
abbrev prepare_segment : Option ℕ → Prepared → Bytes → Prepared
prepare_segment max_size s seg = prepare_one_datagram max_size seg s

after_segmented : Prepared × Outcome (Unit {0}) → Prepared
after_segmented (s, done u) = s
after_segmented ((pending, o), failed e) = (pending, count_other 1 o)

unfoldable pub prepare_ip_datagrams : Option ℕ → Option VirtioNetHdr → Bytes → Prepared → Prepared
unfolding after_segmented
prepare_ip_datagrams max_size none packet s = prepare_one_datagram max_size packet s
prepare_ip_datagrams max_size (some meta) packet s =
    after_segmented
      (materialize_offload_into (λ s seg. (prepare_segment max_size s seg, done tt)) meta packet s)

-- The plain packets of a packet with its metadata, up to an error.
unfoldable pub plain_packets : Option VirtioNetHdr → Bytes → List Bytes
plain_packets none packet = packet ∷ []
plain_packets (some meta) packet = (materialize_offload_into collect meta packet []).0

abbrev pub fits : ℕ → Bytes → Bool
fits max packet = leb (length packet) max

abbrev pub too_long : ℕ → Bytes → Bool
too_long max p = not (fits max p)

feed-pending :
    (max : ℕ) (ps : List Bytes) (s : Prepared)
    → (feed (prepare_segment (some max)) s ps).0 ≡ s.0 ++ keep_if (fits max) ps
unfolding feed prepare_one_datagram
feed-pending max [] s = sym (append-nil s.0)
feed-pending max (p ∷ ps) (pending, o) = elim (Bool-cases (fits max p)) [
  | inl short ↦
      rw (short, feed, prepare_one_datagram, keep_if)
        (feed-pending max ps (pending ++ p ∷ [], o)
          ∙ append_assoc pending (p ∷ []) (keep_if (fits max) ps))
  | inr long ↦
      rw (long, feed, prepare_one_datagram, keep_if)
        (feed-pending max ps (pending, count_too_large o))
]

feed-too_large :
    (max : ℕ) (ps : List Bytes) (s : Prepared)
    → s.1.dropped_too_large < u64_mod
    → (feed (prepare_segment (some max)) s ps).1.dropped_too_large
      ≡ (s.1.dropped_too_large + length (keep_if (too_long max) ps)) % u64_mod
unfolding feed prepare_one_datagram
feed-too_large max [] s small = omega arith
feed-too_large max (p ∷ ps) (pending, o) small = elim (Bool-cases (fits max p)) [
  | inl short ↦
      rw (short, feed, prepare_one_datagram, keep_if)
        (feed-too_large max ps (pending ++ p ∷ [], o) small)
  | inr long ↦
      rw (long, feed, prepare_one_datagram, keep_if)
        (feed-too_large max ps (pending, count_too_large o) (omega arith) ∙ omega arith)
]

after_segmented_lem :
    (r : Prepared × Outcome (Unit {0}))
    → ((after_segmented r).0 ≡ r.0.0)
      × ((after_segmented r).1.dropped_too_large ≡ r.0.1.dropped_too_large)
unfolding after_segmented
after_segmented_lem (s, done u) = (refl, refl)
after_segmented_lem (s, failed e) = (refl, refl)

-- What a packet adds to the pending datagrams and to the count of those too large.
abbrev pub Adds : ℕ → List Bytes → Prepared → Prepared → Type 0
Adds max packets s t =
    (t.0 ≡ s.0 ++ keep_if (fits max) packets)
    × (t.1.dropped_too_large
        ≡ (s.1.dropped_too_large + length (keep_if (too_long max) packets)) % u64_mod)

feed-Adds :
    (max : ℕ) (ps : List Bytes) (s : Prepared)
    → s.1.dropped_too_large < u64_mod
    → Adds max ps s (feed (prepare_segment (some max)) s ps)
feed-Adds max ps s small = (feed-pending max ps s, feed-too_large max ps s small)

-- Of the plain packets of a packet, those that fit a datagram are pending, in their order, and the
-- others are counted.
pub prepare_ip_datagrams-Adds :
    (max : ℕ) (offload : Option VirtioNetHdr) (packet : Bytes) (s : Prepared)
    → s.1.dropped_too_large < u64_mod
    → Adds max (plain_packets offload packet) s (prepare_ip_datagrams (some max) offload packet s)
unfolding prepare_ip_datagrams plain_packets feed
prepare_ip_datagrams-Adds max none packet s small = feed-Adds max (packet ∷ []) s small
prepare_ip_datagrams-Adds max (some meta) packet s small =
    let fed = materialize-Fed (prepare_segment (some max)) s meta packet in
    let (a, b) = after_segmented_lem (
      materialize_offload_into (λ s seg. (prepare_segment (some max) s seg, done tt)) meta packet
        s) in
    let (c, d) = feed-Adds max (materialize_offload_into collect meta packet []).0 s small in
    (a ∙ ap (λ r. r.0.0) fed ∙ c, b ∙ ap (λ r. r.0.1.dropped_too_large) fed ∙ d)
