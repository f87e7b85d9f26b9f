-- ===== src/Core/Store/Tests.antt =====
-- Runs of the in-memory event store, and its theorems at them.
use looms.Prelude.{
  ℕ, ◌-◌, String, none, some, true, false, List, [], ◌∷◌, ◌++◌, ◌≡◌, ◌⊎◌, refl, arith, leb, not,
  filter, map,
}
use looms.Prelude.Dict.{get, put}
use looms.Core.Json.{num}
use looms.Core.Envelope.{EventEnvelope, EventType, system, signal_received, timer_fired}
use looms.Core.Store.Log.{
  RunLog, AppendOptions, AppendResult, ok, err, conflict, reused_key, too_large, Idempotency,
  empty_log, append_log, append_new, over_limit, commit, assign,
}
use looms.Core.Store.Reads.{trim_log, subscribe_log, read_log, archive, covered, trim_safely}
use looms.Core.Store.Steps.{Steps, stay, then, appends, trims, subscribes}
use looms.Core.Store.Ordered.{IsOrdered, Rising, Steps-IsOrdered}
use looms.Core.Store.Append.{bare, append_log-read}
use looms.Core.Store.Retry.{append_log_retry, append_log-conflict}
use looms.Core.Store.Subscribe.{AllFed, Steps-AllFed}
use looms.Core.Store.Trim.{trim_safely-covered}

-- Every event here is counted as ten bytes.
abbrev ten : EventEnvelope → ℕ
ten event = 10

abbrev event_of : String → EventType → EventEnvelope
event_of id type = record {
  id = id;
  run_id = "";
  seq = 0;
  ts = 5;
  type = type;
  payload = num 1;
  thread_id = none;
  parent_thread_id = none;
  causation_id = none;
  correlation_id = none;
  effect_id = none;
  origin = system;
  ephemeral = false;
  idempotency_key = none;
}

abbrev two_events : List EventEnvelope
two_events = event_of "e1" signal_received ∷ event_of "e2" timer_fired ∷ []

abbrev plain : AppendOptions
plain = record { expected_tail = none; idempotency = none; fence = none; fencing_token = none }

abbrev keyed : AppendOptions
keyed = record plain {
  expected_tail = some 0;
  idempotency = some (record { key = "k"; fingerprint = some "f" });
  fence = some "t";
}

abbrev at_start : AppendOptions
at_start = record plain { expected_tail = some 0 }

abbrev key_k : Idempotency
key_k = record { key = "k"; fingerprint = some "f" }

abbrev result : AppendResult
result = record { sequences = 2 ∷ 3 ∷ []; tail = 3; deduplicated = false }

abbrev after_append : RunLog
after_append = (append_log ten "r" empty_log two_events keyed).1

-- A fence takes a number of its own.
fenced_append : (append_log ten "r" empty_log two_events keyed).0 ≡ ok result
unfolding append_log append_new over_limit assign get
fenced_append = refl

-- The batch is repeated with other content under its key.
reused :
    (append_log ten "r" after_append two_events
      (record keyed { idempotency = some (record { key = "k"; fingerprint = some "g" }) })).0
    ≡ err (reused_key "k")
unfolding append_log append_new over_limit assign get put commit
reused = refl

too_long :
    (append_log (λ e. 2000000) "r" empty_log two_events plain).0
    ≡ err (too_large signal_received 2000000)
unfolding append_log append_new over_limit assign get
too_long = refl

-- A subscription, an append, a trim and another append.
abbrev history : RunLog
history =
    let subscribed = subscribe_log empty_log 0 none in
    let appended = (append_log ten "r" subscribed two_events keyed).1 in
    (append_log ten "r" (trim_log appended 3) two_events plain).1

history-Steps : Steps ten "r" empty_log history
unfolding append_log append_new over_limit assign get put commit subscribe_log trim_log
history-Steps =
    then
      (then
        (then (then (stay empty_log) (subscribes empty_log 0 none))
          (appends (subscribe_log empty_log 0 none) two_events keyed))
        (trims (append_log ten "r" (subscribe_log empty_log 0 none) two_events keyed).1 3
          (omega arith)))
      (appends (trim_log (append_log ten "r" (subscribe_log empty_log 0 none) two_events keyed).1 3)
        two_events plain)

history-events : map (λ e. e.seq) history.events ≡ 3 ∷ 4 ∷ 5 ∷ []
unfolding append_log append_new over_limit assign get put commit subscribe_log trim_log
history-events = refl

small : over_limit ten "r" two_events ≡ none
unfolding over_limit
small = refl

too_long_later :
    (append_log (λ e. 2000000) "r" history two_events plain).0
    ≡ err (too_large signal_received 2000000)
unfolding append_log over_limit
too_long_later = refl

Steps-IsOrdered_example : IsOrdered history
Steps-IsOrdered_example =
    Steps-IsOrdered ten "r" {a = empty_log} {b = history} history-Steps (omega arith, tt)

Steps-AllFed_example : AllFed history
Steps-AllFed_example = Steps-AllFed ten "r" {a = empty_log} {b = history} history-Steps tt

append_log_retry_example :
    append_log ten "r" after_append two_events keyed
    ≡ (ok (record { sequences = []; tail = after_append.tail; deduplicated = true }), after_append)
append_log_retry_example =
    append_log_retry ten "r" empty_log after_append two_events keyed key_k result refl fenced_append
      refl (stay after_append)

append_log-conflict_example :
    append_log ten "r" after_append two_events at_start
    ≡ (err (conflict 0 after_append.tail), after_append)
append_log-conflict_example =
    append_log-conflict ten "r" empty_log after_append 0 two_events two_events keyed at_start result
      (omega arith) refl refl fenced_append refl (stay after_append) small refl

trim_safely-covered_example :
    ((covered (archive 3) (4 - 1) ≡ true)
      × ((trimmed : RunLog) × (trim_safely history 4 (archive 3) ≡ some trimmed)
          × (filter (λ e. not (covered (archive 3) e.seq)) trimmed.events
              ≡ filter (λ e. not (covered (archive 3) e.seq)) history.events)
          × (trimmed.tail ≡ history.tail)))
    ⊎ ((covered (archive 3) (4 - 1) ≡ false) × (trim_safely history 4 (archive 3) ≡ none))
trim_safely-covered_example = trim_safely-covered history 4 (archive 3)

append_log-read_example :
    (appended : List EventEnvelope) × (map bare appended ≡ map bare two_events)
    × (map (λ e. e.seq) appended ≡ result.sequences)
    × Rising 1 3 appended
    × (after_append.tail ≡ 3)
    × (read_log after_append (some 3) none
        ≡ read_log empty_log (some 3) none ++ filter (λ e. leb 3 e.seq) appended)
append_log-read_example =
    append_log-read ten "r" empty_log two_events keyed result 3 (omega arith, tt) fenced_append refl
