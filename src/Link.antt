-- ===== src/Link.antt =====
-- core-rs/core-grpc/src/link.rs: the link to the analytics service. A client offers batches to a
-- bounded queue; a worker connects, forwards the batches, receives scores, and waits with a growing
-- delay after each loss. What tokio, tonic and the network decide arrives as events: any event that is
-- possible in a state may come next, as in `select!`.
pub mod Soundness
pub mod Accounting
pub mod Backoff
pub mod Shutdown
use netmon_polyglot.Prelude.{
  length, ltb, ◌==◌, ◌&&◌, ◌*◌, ◌++◌, if◌then◌else◌, Option, ℕ, min, Bool, List, ◌∷◌, false, true,
  some, none, [],
}
use netmon_polyglot.Prelude.Words.{add64}

abbrev pub initial_backoff : ℕ
initial_backoff = 500

abbrev pub max_backoff : ℕ
max_backoff = 30_000

abbrev pub batch_queue : ℕ
batch_queue = 8

pub data LinkState : Type 0 where
  disconnected connecting connected : LinkState

-- `LinkState::from_u8` and `state as u8`
unfoldable pub from_u8 : ℕ → LinkState
from_u8 v = if v == 1 then connecting else if v == 2 then connected else disconnected

unfoldable pub to_u8 : LinkState → ℕ
to_u8 disconnected = 0
to_u8 connecting = 1
to_u8 connected = 2

pub record Counters : Type 0 where
  pub state : ℕ
  pub sent : ℕ
  pub dropped : ℕ
  pub reconnects : ℕ

abbrev pub no_counts : Counters
no_counts = record { state = 0; sent = 0; dropped = 0; reconnects = 0 }

-- Where the worker waits: for the connection, for the call to start, for a message of the running
-- call, for room to forward a batch before or after the start, for the end of the delay; or it is
-- done.
pub data Phase (B : Type 0) : Type 0 where
  connect starting streaming wait stopped : Phase B
  forward_starting forward_streaming : B → Phase B

unfoldable pub is_connected : LinkState → Bool
is_connected connected = true
is_connected s = false

-- The receiver of the queue is gone when the worker is done.
unfoldable pub is_open : {B : Type 0} → Phase B → Bool
is_open stopped = false
is_open phase = true

-- `if test { … }` for an event that is possible only then.
abbrev pub only_if {ℓ} : {A : Type ℓ} → Bool → A → Option A
only_if true a = some a
only_if false a = none

module _ (B S : Type 0) where
  pub data Event : Type 0 where
    -- The client: `offer` with the state that it read, `drain_scores`, and the drop of the link.
    offer : LinkState → B → Event
    drain_scores drop_link : Event
    -- The senders of the queue go with the fields of the link, after `drop` has joined the worker.
    close : Event
    -- The worker's side of `select!` and `await`.
    recv recv_closed shutdown_changed slept : Event
    connect_done call_started forwarded : Bool → Event
    message : Option S → Event

  pub record Link : Type 0 where
    pub counters : Counters
    pub batches : List B
    pub scores : List S
    pub shutdown : Bool
    pub closed : Bool
    pub phase : Phase B
    pub backoff : ℕ

module _ {B S : Type 0} where
  unfoldable pub state : Link B S → LinkState
  unfolding from_u8
  state l = from_u8 l.counters.state

  unfoldable pub set_state : Link B S → LinkState → Link B S
  unfolding to_u8
  set_state l s = record l { counters = record (l.counters) { state = to_u8 s } }

  -- `offer`: `seen` is the state that was read, which the worker may have left since.
  unfoldable pub offer_batch : Link B S → LinkState → B → Link B S × Bool
  unfolding is_connected is_open
  offer_batch l seen batch =
      if is_connected seen && (is_open l.phase && ltb (length l.batches) batch_queue)
      then (record l { batches = l.batches ++ batch ∷ [] }, true)
      else (
        record l { counters = record (l.counters) { dropped = add64 l.counters.dropped 1 } },
        false,
      )

  unfoldable pub drain : Link B S → Link B S × List S
  drain l = (record l { scores = [] }, l.scores)

  -- The top of the loop in `run`.
  unfoldable pub try_connect : Link B S → Link B S
  unfolding set_state
  try_connect l = record (set_state l connecting) { phase = connect }

  -- After the connection, `stream` is called.
  unfoldable pub enter_stream : Link B S → Link B S
  unfolding set_state
  enter_stream l = record (set_state l connected) { backoff = initial_backoff; phase = starting }

  -- The loop leaves by `break`.
  unfoldable pub stop : Link B S → Link B S
  unfolding set_state
  stop l = record (set_state l disconnected) { phase = stopped }

  -- No connection, or `stream` returned `Lost`: `wait` is called.
  unfoldable pub lose : Link B S → Link B S
  unfolding set_state
  lose l =
      let l' = set_state l disconnected in
      record l' {
        counters = record (l'.counters) { reconnects = add64 l'.counters.reconnects 1 };
        phase = wait;
      }

  -- `wait` returned `Lost`.
  unfoldable pub retry : Link B S → Link B S
  unfolding try_connect
  retry l = try_connect (record l { backoff = min (l.backoff * 2) max_backoff })

  -- The next batch of the queue, and what happens with it.
  unfoldable pub take_batch : Link B S → (B → Link B S → Link B S) → Option (Link B S)
  take_batch l next = elim l.batches [
    | [] ↦ none
    | b ∷ rest ↦ some (next b (record l { batches = rest }))
  ]

  -- `recv` gives nothing more.
  unfoldable pub is_drained : Link B S → Bool
  is_drained l = l.closed && length l.batches == 0

  unfoldable pub count_dropped : Link B S → Link B S
  count_dropped l = record l {
    counters = record (l.counters) { dropped = add64 l.counters.dropped 1 };
  }

  -- `tx.send(batch).await` and the end of `forward`.
  unfoldable pub finish_forward : Link B S → Phase B → Bool → Link B S
  unfolding lose
  finish_forward l back true = record l {
    counters = record (l.counters) { sent = add64 l.counters.sent 1 };
    phase = back;
  }
  finish_forward l back false = lose l

  -- The worker at an event, in each of its phases.
  unfoldable pub at_connect : Link B S → Event B S → Option (Link B S)
  unfolding enter_stream lose
  at_connect l (connect_done true) = some (enter_stream l)
  at_connect l (connect_done false) = some (lose l)
  at_connect l e = none

  unfoldable pub at_starting : Link B S → Event B S → Option (Link B S)
  unfolding stop lose take_batch is_drained
  at_starting l shutdown_changed = only_if l.shutdown (stop l)
  at_starting l recv = take_batch l (λ b l'. record l' { phase = forward_starting b })
  at_starting l recv_closed = only_if (is_drained l) (stop l)
  at_starting l (call_started true) = some (record l { phase = streaming })
  at_starting l (call_started false) = some (lose l)
  at_starting l e = none

  unfoldable pub at_streaming : Link B S → Event B S → Option (Link B S)
  unfolding stop lose take_batch is_drained
  at_streaming l shutdown_changed = only_if l.shutdown (stop l)
  at_streaming l recv = take_batch l (λ b l'. record l' { phase = forward_streaming b })
  at_streaming l recv_closed = only_if (is_drained l) (stop l)
  at_streaming l (message (some s)) = some (record l { scores = l.scores ++ s ∷ [] })
  at_streaming l (message none) = some (lose l)
  at_streaming l e = none

  unfoldable pub at_forward : Link B S → Phase B → Event B S → Option (Link B S)
  unfolding finish_forward
  at_forward l back (forwarded sent) = some (finish_forward l back sent)
  at_forward l back e = none

  unfoldable pub at_wait : Link B S → Event B S → Option (Link B S)
  unfolding stop retry take_batch count_dropped is_drained
  at_wait l slept = some (retry l)
  at_wait l shutdown_changed = only_if l.shutdown (stop l)
  at_wait l recv = take_batch l (λ b l'. count_dropped l')
  at_wait l recv_closed = only_if (is_drained l) (stop l)
  at_wait l e = none

  unfoldable pub work : Link B S → Phase B → Event B S → Option (Link B S)
  unfolding at_connect at_starting at_streaming at_forward at_wait
  work l connect e = at_connect l e
  work l starting e = at_starting l e
  work l streaming e = at_streaming l e
  work l (forward_starting b) e = at_forward l starting e
  work l (forward_streaming b) e = at_forward l streaming e
  work l wait e = at_wait l e
  work l stopped e = none

  -- One event; `none` if it is not possible in the state.
  unfoldable pub step : Link B S → Event B S → Option (Link B S)
  unfolding offer_batch drain work
  step l (offer seen batch) = some (offer_batch l seen batch).0
  step l drain_scores = some (drain l).0
  step l drop_link = some (record l { shutdown = true })
  step l close = elim l.phase [ stopped ↦ some (record l { closed = true }) | phase ↦ none ]
  step l recv = work l l.phase recv
  step l recv_closed = work l l.phase recv_closed
  step l shutdown_changed = work l l.phase shutdown_changed
  step l slept = work l l.phase slept
  step l (connect_done made) = work l l.phase (connect_done made)
  step l (call_started made) = work l l.phase (call_started made)
  step l (forwarded sent) = work l l.phase (forwarded sent)
  step l (message m) = work l l.phase (message m)

  -- The link after `start`, with the worker at its first connection.
  unfoldable pub start : Link B S
  unfolding try_connect
  start = try_connect (record {
    counters = no_counts;
    batches = [];
    scores = [];
    shutdown = false;
    closed = false;
    phase = connect;
    backoff = initial_backoff;
  })

  -- A sequence of events, each possible in its state.
  unfoldable pub run : Link B S → List (Event B S) → Option (Link B S)
  run l [] = some l
  run l (e ∷ events) = elim (step l e) [ none ↦ none | some l' ↦ run l' events ]
