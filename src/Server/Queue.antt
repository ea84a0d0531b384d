-- ===== src/Server/Queue.antt =====
-- src/tunnel/server.rs: the queue of datagrams to one client, a channel without a bound of its own
-- whose occupancy is charged to a budget of bytes. `taken` is the batch that the writer holds.
use ezvpn.Prelude.{
  ℕ, ◌+◌, ◌-◌, ◌*◌, ◌≤◌, ◌≡◌, Bool, false, not, List, [], ◌∷◌, ◌++◌, arith, sym, ap, ◌∙◌,
  take-append-drop, ltb, if◌then◌else◌, length, take, drop, Bytes,
}

abbrev pub client_queue_bytes : ℕ
client_queue_bytes = 16 * 1024 * 1024

abbrev pub queued_datagram_overhead : ℕ
queued_datagram_overhead = 64

unfoldable pub queued_datagram_cost : ℕ → ℕ
queued_datagram_cost len = len + queued_datagram_overhead

pub record ClientDatagramQueue : Type 0 where
  pub channel : List Bytes
  pub taken : List Bytes
  pub queued_bytes : ℕ
  pub is_open : Bool

pub data PushError : Type 0 where
  full closed : PushError

pub data PushResult : Type 0 where
  pushed : PushResult
  refused : PushError → PushResult

-- The queue is charged first, and the charge given back where the datagram is refused.
unfoldable pub try_push : Bytes → ClientDatagramQueue → PushResult × ClientDatagramQueue
try_push datagram q =
    let cost = queued_datagram_cost (length datagram) in
    let charged = record q { queued_bytes = q.queued_bytes + cost } in
    let undone = record charged { queued_bytes = charged.queued_bytes - cost } in
    if ltb client_queue_bytes (q.queued_bytes + cost)
    then (refused full, undone)
    else if not q.is_open
    then (refused closed, undone)
    else (pushed, record charged { channel = q.channel ++ (datagram ∷ []) })

-- Up to `limit` datagrams, for a writer that holds none.
unfoldable pub recv_many : ℕ → ClientDatagramQueue → ClientDatagramQueue
recv_many limit q = record q {
  channel = drop limit q.channel;
  taken = q.taken ++ take limit q.channel;
}

unfoldable pub total_cost : List Bytes → ℕ
total_cost [] = 0
total_cost (d ∷ batch) = queued_datagram_cost (length d) + total_cost batch

-- The charge of the batch that the writer has finished with.
unfoldable pub release : ClientDatagramQueue → ClientDatagramQueue
release q = record q { taken = []; queued_bytes = q.queued_bytes - total_cost q.taken }

pub data QueueOp : Type 0 where
  push : Bytes → QueueOp
  receive : ℕ → QueueOp
  finish : QueueOp
  close : QueueOp

-- What is in the channel when the receiver goes is never sent, but nothing gives its charge back: the
-- charged datagrams stay in the account.
unfoldable pub step : QueueOp → ClientDatagramQueue → ClientDatagramQueue
step (push d) q = (try_push d q).1
step (receive limit) q = recv_many limit q
step finish q = release q
step close q = record q { is_open = false }

unfoldable pub run : List QueueOp → ClientDatagramQueue → ClientDatagramQueue
run [] q = q
run (op ∷ ops) q = run ops (step op q)

-- The charge is exactly that of the datagrams that are queued or being sent, and in the budget.
pub record Charged (q : ClientDatagramQueue) : Type 0 where
  pub exact : q.queued_bytes ≡ total_cost q.channel + total_cost q.taken
  pub in_budget : q.queued_bytes ≤ client_queue_bytes

total_cost-append : (a b : List Bytes) → total_cost (a ++ b) ≡ total_cost a + total_cost b
unfolding total_cost
total_cost-append [] b = omega arith
total_cost-append (d ∷ a) b = omega (arith, total_cost-append a b)

total_cost-split :
    (n : ℕ) (a : List Bytes) → total_cost (take n a) + total_cost (drop n a) ≡ total_cost a
total_cost-split n a =
    sym (total_cost-append (take n a) (drop n a)) ∙ ap total_cost (take-append-drop n a)

pub step-Charged : (op : QueueOp) (q : ClientDatagramQueue) → Charged q → Charged (step op q)
unfolding step try_push recv_many release queued_datagram_cost total_cost
step-Charged (push d) q c =
    ground (arith, c.exact, c.in_budget, total_cost-append q.channel (d ∷ []))
step-Charged (receive limit) q c = record {
  exact = omega (
    arith,
    c.exact,
    total_cost-append q.taken (take limit q.channel),
    total_cost-split limit q.channel,
  );
  in_budget = c.in_budget;
}
step-Charged finish q c = record {
  exact = omega (arith, c.exact);
  in_budget = omega (arith, c.in_budget);
}
step-Charged close q c = record { exact = c.exact; in_budget = c.in_budget }

-- The memory that a client's queue is charged for never exceeds the budget and never leaks: after
-- any pushes, receives and releases, it is the cost of what is queued or being sent.
pub run-Charged : (ops : List QueueOp) (q : ClientDatagramQueue) → Charged q → Charged (run ops q)
unfolding run
run-Charged [] q c = c
run-Charged (op ∷ ops) q c = run-Charged ops (step op q) (step-Charged op q c)
