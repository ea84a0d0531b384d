-- ===== src/Server/Queueing.antt =====
-- src/tunnel/server.rs: `queue_client_datagrams`, which queues a packet of the TUN device for a client.
-- The packet's datagrams are pending only within a call.
use ezvpn.Prelude.{
  ℕ, ◌+◌, ◌≤◌, ◌≡◌, ◌⊎◌, refl, sym, ◌∙◌, ap, not, Option, some, List, [], ◌∷◌, ◌++◌, ltb, length,
  keep_if, All, All-append, All-map, Bytes, subst, leb→le, arith, Bool-cases, inl, inr,
  if◌then◌else◌,
}
use mathlib.Core.List.{append_assoc, append-nil, Memᴰ}
use ezvpn.Offload.{VirtioNetHdr}
use ezvpn.Stream.Batch.{DatagramSendOutcome}
use ezvpn.Stream.Prepare.{
  Prepared, prepare_ip_datagrams, prepare_ip_datagrams-Adds, plain_packets, fits,
}
use ezvpn.Server.Queue.{
  ClientDatagramQueue, PushResult, pushed, refused, full, closed, try_push, client_queue_bytes,
  queued_datagram_cost, Charged, step, push, step-Charged,
}
use ezvpn.Server.Stats.{VpnServerStats, add}

abbrev default_outcome : DatagramSendOutcome
default_outcome = record { sent = 0; dropped_too_large = 0; dropped_other = 0 }

abbrev add_too_large : DatagramSendOutcome → VpnServerStats → VpnServerStats
add_too_large o stats =
    if ltb 0 o.dropped_too_large
    then record stats {
      packets_dropped_too_large = add stats.packets_dropped_too_large o.dropped_too_large;
    }
    else stats

abbrev add_other : DatagramSendOutcome → VpnServerStats → VpnServerStats
add_other o stats =
    if ltb 0 o.dropped_other
    then record stats { packets_dropped_full = add stats.packets_dropped_full o.dropped_other }
    else stats

abbrev pub Queued : Type 0
Queued = ClientDatagramQueue × VpnServerStats

-- The answer to a push: one more, a drop, or the end of the loop.
after_push :
    PushResult × ClientDatagramQueue
    → VpnServerStats
    → (ClientDatagramQueue → VpnServerStats → Queued)
    → Queued
after_push (pushed, q) stats continue = continue q stats
after_push (refused full, q) stats continue =
    continue q (record stats { packets_dropped_full = add stats.packets_dropped_full 1 })
after_push (refused closed, q) stats continue = (q, stats)

unfoldable pub drain : List Bytes → ClientDatagramQueue → VpnServerStats → Queued
unfolding after_push
drain [] q stats = (q, stats)
drain (datagram ∷ pending) q stats =
    after_push (try_push datagram q) stats (λ q' stats'. drain pending q' stats')

unfoldable pub queue_client_datagrams :
    Option ℕ → ClientDatagramQueue → Option VirtioNetHdr → Bytes → VpnServerStats → Queued
queue_client_datagrams max_size q offload packet stats =
    let prepared : Prepared = prepare_ip_datagrams max_size offload packet ([], default_outcome) in
    drain prepared.0 q (add_other prepared.1 (add_too_large prepared.1 stats))

-- A queue with more datagrams behind those of another, each with a property.
pub record Extends (P : Bytes → Type 0) (q r : ClientDatagramQueue) : Type 0 where
  pub added : List Bytes
  pub channel_is : r.channel ≡ q.channel ++ added
  pub all_added : All P added
  pub taken_kept : r.taken ≡ q.taken

try_push_lem :
    (d : Bytes) (q : ClientDatagramQueue)
    → (((try_push d q).1.channel ≡ q.channel ++ d ∷ []) ⊎ ((try_push d q).1.channel ≡ q.channel))
      × ((try_push d q).1.taken ≡ q.taken)
unfolding try_push
try_push_lem d q =
    elim (Bool-cases (ltb client_queue_bytes (q.queued_bytes + queued_datagram_cost (length d)))) [
      | inl over ↦ rw over (inr refl, refl)
      | inr within ↦ elim (Bool-cases (not q.is_open)) [
        | inl shut ↦ rw (within, shut) (inr refl, refl)
        | inr ready ↦ rw (within, ready) (inl refl, refl)
      ]
    ]

module _ (P : Bytes → Type 0) (start : ClientDatagramQueue) where
  push-Extends :
      (d : Bytes) (q : ClientDatagramQueue)
      → P d
      → Extends P start q
      → Extends P start (try_push d q).1
  push-Extends d q good e =
      let (place, taken) = try_push_lem d q in
      elim place [
        | inl more ↦ record {
          added = e.added ++ d ∷ [];
          channel_is =
              more
              ∙ ap (λ c. c ++ d ∷ []) e.channel_is
              ∙ append_assoc start.channel e.added (d ∷ []);
          all_added = All-append P e.added (d ∷ []) e.all_added (good, tt);
          taken_kept = taken ∙ e.taken_kept;
        }
        | inr same ↦ record {
          added = e.added;
          channel_is = same ∙ e.channel_is;
          all_added = e.all_added;
          taken_kept = taken ∙ e.taken_kept;
        }
      ]

  -- More datagrams, and the charge of them all.
  abbrev Holds : ClientDatagramQueue → Type 0
  Holds q = Extends P start q × Charged q

  push-Holds : (d : Bytes) (q : ClientDatagramQueue) → P d → Holds q → Holds (try_push d q).1
  unfolding step
  push-Holds d q good (e, c) = (push-Extends d q good e, step-Charged (push d) q c)

  after_push-Holds :
      (r : PushResult × ClientDatagramQueue) (stats : VpnServerStats)
      (continue : ClientDatagramQueue → VpnServerStats → Queued)
      → Holds r.1
      → ((stats' : VpnServerStats) → Holds (continue r.1 stats').0)
      → Holds (after_push r stats continue).0
  unfolding after_push
  after_push-Holds (pushed, q) stats continue h next = next stats
  after_push-Holds (refused full, q) stats continue h next = next _
  after_push-Holds (refused closed, q) stats continue h next = h

  drain-Holds :
      (pending : List Bytes) (q : ClientDatagramQueue) (stats : VpnServerStats)
      → All P pending
      → Holds q
      → Holds (drain pending q stats).0
  unfolding drain
  drain-Holds [] q stats all h = h
  drain-Holds (d ∷ pending) q stats all h =
      let next = push-Holds d q all.0 h in
      after_push-Holds (try_push d q) stats (λ q' stats'. drain pending q' stats') next
        (λ stats'. drain-Holds pending (try_push d q).1 stats' all.1 next)

-- A datagram that the connection takes, of the packets that a packet becomes.
abbrev pub Due : ℕ → List Bytes → Bytes → Type 0
Due max packets d = (length d ≤ max) × Memᴰ d packets

keep_if-Due :
    (max : ℕ) (packets ps : List Bytes)
    → All (λ p. Memᴰ p packets) ps
    → All (Due max packets) (keep_if (fits max) ps)
keep_if-Due max packets [] members = tt
keep_if-Due max packets (p ∷ ps) members = elim (Bool-cases (fits max p)) [
  | inl short ↦
      rw (short, keep_if)
        ((leb→le (length p) max short, members.0), keep_if-Due max packets ps members.1)
  | inr long ↦ rw (long, keep_if) (keep_if-Due max packets ps members.1)
]

members_of : (ps : List Bytes) → All (λ p. Memᴰ p ps) ps
members_of [] = tt
members_of (p ∷ ps) = (
  Memᴰ.head refl,
  All-map (λ x. Memᴰ x ps) (λ x. Memᴰ x (p ∷ ps)) ps (λ x. Memᴰ.tail) (members_of ps),
)

-- Queueing a packet puts datagrams behind those of the queue, each one of the plain packets of the
-- packet and no longer than the connection takes, and leaves the queue charged for what it holds
-- and within its budget.
pub queue_client_datagrams-Extends :
    (max : ℕ) (q : ClientDatagramQueue) (offload : Option VirtioNetHdr) (packet : Bytes)
    (stats : VpnServerStats)
    → Charged q
    → Extends
        (Due max (plain_packets offload packet))
        q
        (queue_client_datagrams (some max) q offload packet stats).0
      × Charged (queue_client_datagrams (some max) q offload packet stats).0
unfolding queue_client_datagrams
queue_client_datagrams-Extends max q offload packet stats charged =
    let (pending, counted) =
      prepare_ip_datagrams-Adds max offload packet ([], default_outcome) (omega arith) in
    drain-Holds (Due max (plain_packets offload packet)) q
      (prepare_ip_datagrams (some max) offload packet ([], default_outcome)).0 q _
      (subst (All (Due max (plain_packets offload packet))) (sym pending) (
        keep_if-Due max (plain_packets offload packet) (plain_packets offload packet)
          (members_of (plain_packets offload packet))))
      (
        record {
          added = [];
          channel_is = sym (append-nil q.channel);
          all_added = tt;
          taken_kept = refl;
        },
        charged,
      )
