-- ===== src/Stream/Batch.antt =====
-- src/tunnel/stream.rs: `prepare_one_datagram`, and `send_datagram_batch`. The connection of the crate
-- `iroh` is a parameter: a state, and its answers to the two calls that send.
use ezvpn.Prelude.{
  ℕ, zero, suc, ◌+◌, ◌-◌, ◌%◌, ◌≤◌, ◌<◌, ◌≡◌, refl, List, [], ◌∷◌, ◌++◌, Bool, true, false, Option,
  none, some, leb, if◌then◌else◌, length, drop, Bytes, length-drop, arith, Bool-cases, inl, inr,
  subst,
}
use ezvpn.Server.{u64_mod}

pub data SendDatagramError : Type 0 where
  unsupported_by_peer disabled too_large connection_lost : SendDatagramError

pub data ManyAnswer : Type 0 where
  queued : ℕ → ManyAnswer
  many_failed : SendDatagramError → ManyAnswer

pub data WaitAnswer : Type 0 where
  sent_one : WaitAnswer
  wait_failed : SendDatagramError → WaitAnswer

pub record Connection (C : Type 0) : Type 0 where
  pub try_send_many_datagrams : C → List Bytes → ManyAnswer × C
  pub send_datagram_wait : C → Bytes → WaitAnswer × C

pub record DatagramSendOutcome : Type 0 where
  pub sent : ℕ
  pub dropped_too_large : ℕ
  pub dropped_other : ℕ

-- The counters are `u64`.
abbrev count_sent : ℕ → DatagramSendOutcome → DatagramSendOutcome
count_sent n o = record o { sent = (o.sent + n) % u64_mod }

abbrev pub count_too_large : DatagramSendOutcome → DatagramSendOutcome
count_too_large o = record o { dropped_too_large = (o.dropped_too_large + 1) % u64_mod }

abbrev pub count_other : ℕ → DatagramSendOutcome → DatagramSendOutcome
count_other n o = record o { dropped_other = (o.dropped_other + n) % u64_mod }

-- A packet that fits the datagram size is pending; any other is dropped and counted.
unfoldable pub prepare_one_datagram :
    Option ℕ → Bytes → List Bytes × DatagramSendOutcome → List Bytes × DatagramSendOutcome
prepare_one_datagram (some max) packet (pending, o) =
    if leb (length packet) max then (pending ++ (packet ∷ []), o) else (pending, count_too_large o)
prepare_one_datagram none packet (pending, o) = (pending, count_other 1 o)

is_too_large : SendDatagramError → Bool
is_too_large too_large = true
is_too_large _ = false

module _ {C : Type 0} (conn : Connection C) where
  abbrev pub Sending : Type 0
  Sending = Option SendDatagramError × DatagramSendOutcome × C

  -- One datagram that awaited room, of `n` left: only one that is too large is passed over.
  after_wait :
      WaitAnswer × C → ℕ → DatagramSendOutcome → (DatagramSendOutcome → C → Sending) → Sending
  after_wait (sent_one, c) n o continue = continue (count_sent 1 o) c
  after_wait (wait_failed e, c) n o continue =
      if is_too_large e then continue (count_too_large o) c else (some e, count_other n o, c)

  -- The loop after `TooLarge`: each datagram awaits room alone.
  pub one_by_one : List Bytes → DatagramSendOutcome → C → Sending
  unfolding after_wait
  one_by_one [] o c = (none, o, c)
  one_by_one (d ∷ rest) o c =
      after_wait (conn.send_datagram_wait c d) (suc (length rest)) o
        (λ o' c'. one_by_one rest o' c')

  -- The three ways a round goes on: waiting, past those that were queued, or one by one.
  after_many :
      ManyAnswer × C
      → ℕ
      → DatagramSendOutcome
      → (C → Sending)
      → (ℕ → C → Sending)
      → (C → Sending)
      → Sending
  after_many (queued zero, c) n o wait go singly = wait c
  after_many (queued (suc k), c) n o wait go singly = go k c
  after_many (many_failed e, c) n o wait go singly =
      if is_too_large e then singly c else (some e, count_other n o, c)

  -- The loop: each round takes a datagram at least.
  pub batch_from : ℕ → List Bytes → DatagramSendOutcome → C → Sending
  unfolding after_wait after_many
  batch_from zero rest o c = (none, o, c)
  batch_from (suc fuel) [] o c = (none, o, c)
  batch_from (suc fuel) (first ∷ rest) o c =
      after_many (conn.try_send_many_datagrams c (first ∷ rest)) (suc (length rest)) o
        (λ c'.
          after_wait (conn.send_datagram_wait c' first) (suc (length rest)) o
            (λ o' c''. batch_from fuel rest o' c''))
        (λ k c'. batch_from fuel (drop k rest) (count_sent (suc k) o) c')
        (λ c'. one_by_one (first ∷ rest) o c')

  pub send_datagram_batch : List Bytes → DatagramSendOutcome → C → Sending
  send_datagram_batch datagrams o c = batch_from (length datagrams) datagrams o c

abbrev pub counted : DatagramSendOutcome → ℕ
counted o = o.sent + o.dropped_too_large + o.dropped_other

-- The connection never says that it queued more than it was given.
abbrev pub Honest : {C : Type 0} → Connection C → Type 0
Honest {C} conn =
    (c : C) (ds : List Bytes) (n : ℕ)
    → (conn.try_send_many_datagrams c ds).0 ≡ queued n
    → n ≤ length ds

module _ {C : Type 0} (conn : Connection C) where
  -- The datagrams left are all counted, while the counters have room for them.
  abbrev pub Accounts : ℕ → DatagramSendOutcome → Sending conn → Type 0
  Accounts n o done = counted o + n < u64_mod → counted done.1 ≡ counted o + n

  after_wait-Accounts :
      (q : WaitAnswer × C) (n : ℕ) (o : DatagramSendOutcome)
      (continue : DatagramSendOutcome → C → Sending conn)
      → ((o' : DatagramSendOutcome) (c : C) → Accounts n o' (continue o' c))
      → Accounts (suc n) o (after_wait conn q (suc n) o continue)
  unfolding after_wait
  after_wait-Accounts (sent_one, c) n o continue k room =
      omega (arith, room, k (count_sent 1 o) c (omega (arith, room)))
  after_wait-Accounts (wait_failed e, c) n o continue k room = elim (Bool-cases (is_too_large e)) [
    | inl large ↦ rw large (omega (arith, room, k (count_too_large o) c (omega (arith, room))))
    | inr other ↦ rw other (omega (arith, room))
  ]

  one_by_one-Accounts :
      (ds : List Bytes) (o : DatagramSendOutcome) (c : C)
      → Accounts (length ds) o (one_by_one conn ds o c)
  unfolding one_by_one
  one_by_one-Accounts [] o c room = omega arith
  one_by_one-Accounts (d ∷ rest) o c room =
      after_wait-Accounts (conn.send_datagram_wait c d) (length rest) o
        (λ o' c'. one_by_one conn rest o' c') (λ o' c'. one_by_one-Accounts rest o' c') room

  after_many-Accounts :
      (q : ManyAnswer × C) (n : ℕ) (o : DatagramSendOutcome) (wait : C → Sending conn)
      (go : ℕ → C → Sending conn) (singly : C → Sending conn)
      → ((k : ℕ) → q.0 ≡ queued k → k ≤ n)
      → ((c : C) → Accounts n o (wait c))
      → ((k : ℕ) (c : C) → suc k ≤ n → Accounts (n - suc k) (count_sent (suc k) o) (go k c))
      → ((c : C) → Accounts n o (singly c))
      → Accounts n o (after_many conn q n o wait go singly)
  unfolding after_many
  after_many-Accounts (queued zero, c) n o wait go singly honest w g s room = w c room
  after_many-Accounts (queued (suc k), c) n o wait go singly honest w g s room =
      let fits = honest (suc k) refl in
      omega (arith, room, fits, g k c fits (omega (arith, room, fits)))
  after_many-Accounts (many_failed e, c) n o wait go singly honest w g s room =
      elim (Bool-cases (is_too_large e)) [
        | inl large ↦ rw large (s c room)
        | inr other ↦ rw other (omega (arith, room))
      ]

  batch_from-Accounts :
      (fuel : ℕ) (ds : List Bytes) (o : DatagramSendOutcome) (c : C)
      → Honest conn
      → length ds ≤ fuel
      → Accounts (length ds) o (batch_from conn fuel ds o c)
  unfolding batch_from
  batch_from-Accounts zero [] o c honest enough room = omega arith
  batch_from-Accounts zero (d ∷ ds) o c honest enough room = absurd (omega arith)
  batch_from-Accounts (suc fuel) [] o c honest enough room = omega arith
  batch_from-Accounts (suc fuel) (d ∷ ds) o c honest enough room =
      after_many-Accounts (conn.try_send_many_datagrams c (d ∷ ds)) (suc (length ds)) o
        (λ c'.
          after_wait conn (conn.send_datagram_wait c' d) (suc (length ds)) o
            (λ o' c''. batch_from conn fuel ds o' c''))
        (λ k c'. batch_from conn fuel (drop k ds) (count_sent (suc k) o) c')
        (λ c'. one_by_one conn (d ∷ ds) o c') (λ k answer. honest c (d ∷ ds) k answer)
        (λ c'.
          after_wait-Accounts (conn.send_datagram_wait c' d) (length ds) o
            (λ o' c''. batch_from conn fuel ds o' c'')
            (λ o' c''. batch_from-Accounts fuel ds o' c'' honest (omega (arith, enough))))
        (λ k c' fits.
          subst
            (λ (n : ℕ).
              Accounts n (count_sent (suc k) o)
                (batch_from conn fuel (drop k ds) (count_sent (suc k) o) c'))
            (omega (arith, length-drop k ds))
            (batch_from-Accounts fuel (drop k ds) (count_sent (suc k) o) c' honest
              (omega (arith, enough, length-drop k ds))))
        (λ c'. one_by_one-Accounts (d ∷ ds) o c') room

  -- Every datagram of a batch is counted once, as sent, as too large or as dropped for another
  -- reason, whatever the connection answers, if it never claims to have queued more than it was
  -- given and the counters do not overflow.
  pub send_datagram_batch-counted :
      (ds : List Bytes) (o : DatagramSendOutcome) (c : C)
      → Honest conn
      → counted o + length ds < u64_mod
      → counted (send_datagram_batch conn ds o c).1 ≡ counted o + length ds
  unfolding send_datagram_batch
  send_datagram_batch-counted ds o c honest room =
      batch_from-Accounts (length ds) ds o c honest (omega arith) room
