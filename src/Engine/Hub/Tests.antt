-- ===== src/Engine/Hub/Tests.antt =====
-- The hub on concrete inputs.
use materialmind.Common.{
  ℕ, ◌-◌, ◌≡◌, ◌↔◌, refl, inr, true, false, none, some, List, [], ◌∷◌, arith, length, lookup,
  insert, delete,
}
use materialmind.Engine.Hub.{
  StreamEvent, Stream, Hub, new_hub_with_limits, empty_stream, find_stream, create, push_event,
  deliver, publish, complete, close_all, expire, events_after, oldest_sequence, is_truncated,
  subscribe_replay,
}
use materialmind.Engine.Hub.Ring.{window, IsRing, Numbered}
use materialmind.Engine.Hub.Push.{next_event, Slides, push_event-Slides}
use materialmind.Engine.Hub.Invariant.{IsConsistent}
use materialmind.Engine.Hub.Operations.{
  Operation, created, published, completed, expired, subscribed, cancelled, received, apply, run,
  run-new_hub_never_panics,
}
use materialmind.Engine.Hub.Replay.{replay_complete}
use materialmind.Engine.Hub.Lost.{IsLost, is_truncated_iff}
use materialmind.Engine.Hub.Timers.{complete-run-expire}

abbrev event : ℕ → StreamEvent ℕ
event n = record { sequence = n; kind = "text"; payload = 0 }

-- Three events went through a ring of two.
abbrev wrapped : Stream ℕ
wrapped = record {
  events = event 3 ∷ event 2 ∷ [];
  event_start = 1;
  next_sequence = 3;
  dropped_through = 1;
  subscribers = [];
  done = false;
}

wrapped-IsRing : IsRing 2 wrapped
unfolding window
wrapped-IsRing = record {
  fits = omega arith;
  start_below = inr (omega arith);
  unwrapped = λ h. absurd (omega arith);
  numbered = (refl, (refl, tt));
  counted = refl;
}

push_event-Slides_example :
    Slides 2 wrapped (next_event wrapped "text" 7) (push_event 2 wrapped "text" 7)
push_event-Slides_example =
    push_event-Slides 2 wrapped "text" 7 wrapped-IsRing (omega arith) (omega arith)

replay_complete_example :
    (replay : List (StreamEvent ℕ)) × (events_after wrapped 1 ≡ some replay)
    × Numbered 1 replay
    × (length replay ≡ 3 - 1)
replay_complete_example =
    replay_complete 2 wrapped 1 wrapped-IsRing (omega arith) (omega arith) (omega arith)

-- Four events went through a ring of two.
abbrev numbered : ℕ → ℕ → StreamEvent ℕ
numbered n payload = record { sequence = n; kind = "text"; payload = payload }

abbrev publishing : List (Operation ℕ)
publishing =
    created "run"
    ∷ published "run" "text" 1
    ∷ published "run" "text" 2
    ∷ published "run" "text" 3
    ∷ published "run" "text" 4
    ∷ []

abbrev twice_wrapped : Stream ℕ
twice_wrapped = record {
  events = numbered 3 3 ∷ numbered 4 4 ∷ [];
  event_start = 0;
  next_sequence = 4;
  dropped_through = 2;
  subscribers = [];
  done = false;
}

abbrev full_hub : Hub ℕ
full_hub = record {
  streams = ("run", 0) ∷ [];
  heap = twice_wrapped ∷ [];
  channels = [];
  event_limit = 2;
  subscriber_buffer = 1;
}

publishes : run publishing (new_hub_with_limits {D = ℕ} 2 1) ≡ some full_hub
unfolding run apply new_hub_with_limits empty_stream find_stream create push_event deliver publish
    lookup insert
publishes = refl

full_found : find_stream full_hub "run" ≡ some (0, twice_wrapped)
unfolding find_stream lookup
full_found = refl

is_truncated_iff_example :
    (is_truncated twice_wrapped 1 ≡ true) ↔ ((k : ℕ) × IsLost twice_wrapped 1 k)
is_truncated_iff_example =
    is_truncated_iff 2 1 publishing full_hub "run" 0 twice_wrapped 1 (omega arith) publishes
      full_found (omega arith) (omega arith)

-- A run with a subscriber that falls behind and is dropped.
abbrev script : List (Operation ℕ)
script =
    created "run"
    ∷ subscribed "run" 0
    ∷ published "run" "text" 1
    ∷ published "run" "text" 2
    ∷ received 0
    ∷ published "run" "text" 3
    ∷ subscribed "run" 1
    ∷ cancelled "run" 1
    ∷ completed "run"
    ∷ expired "run" 0
    ∷ []

run-new_hub_never_panics_example :
    (h : Hub ℕ) × (run script (new_hub_with_limits 2 1) ≡ some h) × IsConsistent 10 h
run-new_hub_never_panics_example = run-new_hub_never_panics 2 1 script (omega arith)

abbrev one_done : Hub ℕ
one_done = record {
  streams = ("run", 0) ∷ [];
  heap = (record wrapped { done = true }) ∷ [];
  channels = [];
  event_limit = 2;
  subscriber_buffer = 1;
}

abbrev ended : Hub ℕ
ended = record full_hub { heap = (record twice_wrapped { done = true }) ∷ [] }

ends_run : complete "run" full_hub ≡ some (ended, some 0)
unfolding complete find_stream close_all lookup
ends_run = refl

-- The run is started again, and ends again before the first timer.
abbrev ended_again : Hub ℕ
ended_again = record ended {
  streams = ("run", 1) ∷ [];
  heap =
      (record twice_wrapped { done = true })
      ∷ (record {
        events = numbered 1 5 ∷ [];
        event_start = 0;
        next_sequence = 1;
        dropped_through = 0;
        subscribers = [];
        done = true;
      })
      ∷ [];
}

runs_again :
    run (published "run" "text" 5 ∷ completed "run" ∷ []) (create "run" ended) ≡ some ended_again
unfolding run apply empty_stream find_stream create push_event deliver publish complete close_all
    lookup insert
runs_again = refl

complete-run-expire_example :
    (find_stream (expire "run" 0 ended) "run" ≡ none) × (expire "run" 0 ended_again ≡ ended_again)
complete-run-expire_example =
    complete-run-expire "run" full_hub ended ended_again 0
      (published "run" "text" 5 ∷ completed "run" ∷ []) ends_run runs_again

expired_gone : find_stream (expire "run" 0 one_done) "run" ≡ none
unfolding find_stream expire lookup delete
expired_gone = refl

-- The subscriber with room for one event is closed at the second.
slow_subscriber :
    run
      (created "run"
        ∷ subscribed "run" 0
        ∷ published "run" "text" 1
        ∷ published "run" "text" 2
        ∷ [])
      (new_hub_with_limits {D = ℕ} 2 1)
    ≡ some (record {
      streams = ("run", 0) ∷ [];
      heap =
          (record {
            events =
                (record { sequence = 1; kind = "text"; payload = 1 })
                ∷ (record { sequence = 2; kind = "text"; payload = 2 })
                ∷ [];
            event_start = 0;
            next_sequence = 2;
            dropped_through = 0;
            subscribers = [];
            done = false;
          })
          ∷ [];
      channels =
          (record {
            buffer = (record { sequence = 1; kind = "text"; payload = 1 }) ∷ [];
            capacity = 1;
            closed = true;
          })
          ∷ [];
      event_limit = 2;
      subscriber_buffer = 1;
    })
unfolding run apply new_hub_with_limits empty_stream find_stream create push_event deliver publish
    events_after oldest_sequence is_truncated subscribe_replay lookup insert
slow_subscriber = refl
