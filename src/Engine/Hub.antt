-- ===== src/Engine/Hub.antt =====
-- The event hub (internal/engine/hub.go): one stream of numbered events for each run, kept in a
-- ring of at most `event_limit` events, and the channels of the stream's subscribers.
-- Streams and channels stand behind pointers, as indices into `heap` and `channels`; `none` is a
-- panic of the Go runtime. A channel that was closed stays readable for its consumer.
pub mod Ring
pub mod Push
pub mod Invariant
pub mod Safety
pub mod Runs
pub mod Subscribers
pub mod Operations
pub mod Replay
pub mod Lost
pub mod Timers
mod Tests
use materialmind.Common.{
  ℕ, zero, suc, ◌+◌, ◌-◌, ◌%◌, max, String, Bool, true, false, ◌&&◌, ◌||◌, not, Option, none, some,
  List, [], ◌∷◌, ◌++◌, if◌then◌else◌, ltb, ◌==◌, str_eq, length, get_elem?, set, filter, lookup,
  insert, delete, any, ◌>>=◌,
}
use materialmind.Common.Int64.{add64, slt}

abbrev pub max_retained_stream_events : ℕ
max_retained_stream_events = 20000

abbrev pub stream_subscriber_buffer : ℕ
stream_subscriber_buffer = 1024

pub record StreamEvent {ℓ} (D : Type ℓ) : Type ℓ where
  pub sequence : ℕ  -- int64
  pub kind : String  -- `Type`
  pub payload : D  -- `Data`

-- A Go channel of events: what it holds, how much it can hold, and whether it is closed.
pub record Channel {ℓ} (D : Type ℓ) : Type ℓ where
  pub buffer : List (StreamEvent D)
  pub capacity : ℕ
  pub closed : Bool

pub record Stream {ℓ} (D : Type ℓ) : Type ℓ where
  pub events : List (StreamEvent D)
  pub event_start : ℕ
  pub next_sequence : ℕ  -- int64
  pub dropped_through : ℕ  -- int64
  pub subscribers : List ℕ
  pub done : Bool

pub record Hub {ℓ} (D : Type ℓ) : Type ℓ where
  pub streams : List (String × ℕ)
  pub heap : List (Stream D)
  pub channels : List (Channel D)
  pub event_limit : ℕ
  pub subscriber_buffer : ℕ

module _ {ℓ} {D : Type ℓ} where
  -- `newHubWithLimits`; the retention is the delay of a timer, and the timer's call is `expire`
  pub new_hub_with_limits : ℕ → ℕ → Hub D
  new_hub_with_limits event_limit subscriber_buffer = record {
    streams = [];
    heap = [];
    channels = [];
    event_limit = max event_limit 1;
    subscriber_buffer = max subscriber_buffer 1;
  }

  pub empty_stream : Stream D
  empty_stream = record {
    events = [];
    event_start = 0;
    next_sequence = 0;
    dropped_through = 0;
    subscribers = [];
    done = false;
  }

  -- `h.streams[runID]`: the pointer and what it points to; `none` is nil
  pub find_stream : Hub D → String → Option (ℕ × Stream D)
  find_stream h run_id = elim (lookup run_id h.streams) [
    | none ↦ none
    | some p ↦ elim (get_elem? h.heap p) [ none ↦ none | some s ↦ some (p, s) ]
  ]

  pub create : String → Hub D → Hub D
  unfolding empty_stream
  create run_id h = record h {
    streams = insert run_id (length h.heap) h.streams;
    heap = h.heap ++ empty_stream ∷ [];
  }

  -- The event of a `Publish` goes to the end of the ring, or over the oldest event.
  pub push_event : ℕ → Stream D → String → D → Option (Stream D × StreamEvent D)
  push_event limit s kind payload =
      let next = add64 s.next_sequence 1 in
      let event : StreamEvent D = record { sequence = next; kind = kind; payload = payload } in
      if ltb (length s.events) limit
      then some (record s { next_sequence = next; events = s.events ++ event ∷ [] }, event)
      else do
        oldest ← get_elem? s.events s.event_start
        some (
          record s {
            next_sequence = next;
            dropped_through = oldest.sequence;
            events = set s.events s.event_start event;
            event_start = (s.event_start + 1) % length s.events;
          },
          event,
        )

  -- `close(c)` panics on a closed channel.
  pub close_channel : Channel D → Option (Channel D)
  close_channel c = if c.closed then none else some (record c { closed = true })

  -- `select { case c <- event: default: delete; close(c) }`, and whether `c` stays subscribed. A
  -- send on a closed channel panics.
  pub send_or_drop : StreamEvent D → Channel D → Option (Channel D × Bool)
  unfolding close_channel
  send_or_drop event c =
      if c.closed
      then none
      else if ltb (length c.buffer) c.capacity
      then some (record c { buffer = c.buffer ++ event ∷ [] }, true)
      else do c' ← close_channel c; some (c', false)

  -- The loop of `Publish` over the subscribers, whom Go visits in an order of its choice.
  pub deliver : StreamEvent D → List ℕ → List (Channel D) → Option (List (Channel D) × List ℕ)
  unfolding send_or_drop
  deliver event [] channels = some (channels, [])
  deliver event (id ∷ ids) channels = do
    c ← get_elem? channels id
    sent ← send_or_drop event c
    rest ← deliver event ids (set channels id sent.0)
    some (rest.0, if sent.1 then id ∷ rest.1 else rest.1)

  pub publish : String → String → D → Hub D → Option (Hub D)
  publish run_id kind payload h = elim (find_stream h run_id) [
    | none ↦ some h
    | some (p, s) ↦ if s.done then some h else do
      pushed ← push_event h.event_limit s kind payload
      sent ← deliver pushed.1 s.subscribers h.channels
      some (record h {
        heap = set h.heap p (record (pushed.0) { subscribers = sent.1 });
        channels = sent.0;
      })
  ]

  -- The loop of `Complete` that closes every subscriber's channel.
  pub close_all : List ℕ → List (Channel D) → Option (List (Channel D))
  unfolding close_channel
  close_all [] channels = some channels
  close_all (id ∷ ids) channels = do
    c ← get_elem? channels id
    c' ← close_channel c
    close_all ids (set channels id c')

  -- `Complete`, and the pointer that the timer's function has captured when a timer is set
  pub complete : String → Hub D → Option (Hub D × Option ℕ)
  complete run_id h = elim (find_stream h run_id) [
    | none ↦ some (h, none)
    | some (p, s) ↦ if s.done then some (h, none) else do
      channels ← close_all s.subscribers h.channels
      some (
        record h {
          heap = set h.heap p (record s { done = true; subscribers = [] });
          channels = channels;
        },
        some p,
      )
  ]

  -- The timer's function: the stream goes only if the run's name still leads to it.
  pub expire : String → ℕ → Hub D → Hub D
  expire run_id captured h = elim (find_stream h run_id) [
    | none ↦ h
    | some (p, s) ↦
        if p == captured && s.done then record h { streams = delete run_id h.streams } else h
  ]

  -- `eventsAfter`, from the round `offset` on, `rounds` rounds
  pub events_loop : Stream D → ℕ → ℕ → ℕ → Option (List (StreamEvent D))
  events_loop s after offset zero = some []
  events_loop s after offset (suc rounds) = do
    event ← get_elem? s.events ((s.event_start + offset) % length s.events)
    rest ← events_loop s after (offset + 1) rounds
    some (if slt after event.sequence then event ∷ rest else rest)

  pub events_after : Stream D → ℕ → Option (List (StreamEvent D))
  unfolding events_loop
  events_after s after = events_loop s after 0 (length s.events)

  -- `OldestSequence` of a replay
  pub oldest_sequence : Stream D → Option ℕ
  oldest_sequence s =
      if ltb 0 (length s.events)
      then (do oldest ← get_elem? s.events s.event_start; some oldest.sequence)
      else some (add64 s.next_sequence 1)

  -- `Truncated` of a replay
  pub is_truncated : Stream D → ℕ → Bool
  is_truncated s after = slt 0 after && slt after s.dropped_through

-- The channel is named by its index.
pub record ReplaySubscription : Type 0 where
  pub events : ℕ
  pub truncated : Bool
  pub oldest_sequence : ℕ

module _ {ℓ} {D : Type ℓ} where
  -- `SubscribeReplay`. The outer `none` is a panic, the inner one the answer `false`.
  -- A channel's capacity has no limit here: in the code both of its terms are bounded by constants,
  -- the retained events and the buffer, so that `make` never panics.
  pub subscribe_replay : String → ℕ → Hub D → Option (Hub D × Option ReplaySubscription)
  subscribe_replay run_id after h = elim (find_stream h run_id) [
    | none ↦ some (h, none)
    | some (p, s) ↦ do
      replay ← events_after s after
      oldest ← oldest_sequence s
      let id = length h.channels
      let channel : Channel D = record {
        buffer = replay;
        capacity = length replay + h.subscriber_buffer;
        closed = s.done;
      }
      let subscribed : Stream D = record s { subscribers = id ∷ s.subscribers }
      some (
        record h {
          heap = if s.done then h.heap else set h.heap p subscribed;
          channels = h.channels ++ channel ∷ [];
        },
        some (record { events = id; truncated = is_truncated s after; oldest_sequence = oldest }),
      )
  ]

  -- `Subscribe`: the channel alone
  pub subscribe : String → ℕ → Hub D → Option (Hub D × Option ℕ)
  unfolding subscribe_replay
  subscribe run_id after h = do
    answer ← subscribe_replay run_id after h
    some (answer.0, elim answer.1 [ none ↦ none | some r ↦ some r.events ])

  -- The goroutine that waits for the end of a subscriber's context.
  pub cancel : String → ℕ → Hub D → Option (Hub D)
  cancel run_id id h = elim (find_stream h run_id) [
    | none ↦ some h
    | some (p, s) ↦ if s.done || not (any (λ j. j == id) s.subscribers) then some h else do
      channels ← close_all (id ∷ []) h.channels
      let left = filter (λ j. not (j == id)) s.subscribers
      some (record h { heap = set h.heap p (record s { subscribers = left }); channels = channels })
  ]

  -- A consumer takes the next event from its channel.
  pub receive : Channel D → Channel D × Option (StreamEvent D)
  receive c = elim c.buffer [ [] ↦ (c, none) | e ∷ rest ↦ (record c { buffer = rest }, some e) ]
