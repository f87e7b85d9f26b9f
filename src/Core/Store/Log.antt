-- ===== src/Core/Store/Log.antt =====
-- packages/core/src/store.ts: the log of a run and its append. A store maps a run's id to its log.
-- `size` stands for `utf8JsonBytes` of limits.ts, which measures an event's JSON text.
use looms.Prelude.{
  ℕ, ◌+◌, ◌*◌, String, Option, none, some, Bool, true, false, List, [], ◌∷◌, ◌++◌, ◌==◌, not, eqb,
  leb, ltb, if◌then◌else◌, length, filter, map, or_else, is_the,
}
use looms.Prelude.Dict.{Dict, get, put}
use looms.Core.Envelope.{EventEnvelope, EventType, with_assigned_seq}

-- A command that was claimed by an idempotency key.
pub record Command : Type 0 where
  pub fingerprint : Option String
  pub committed_tail : ℕ

-- A live subscriber, `token` standing for the identity of its callback: the events from a sequence on are put in its queue.
pub record Waiter : Type 0 where
  pub token : ℕ
  pub from_seq : ℕ
  pub queue : List EventEnvelope

pub record RunLog : Type 0 where
  pub events : List EventEnvelope
  pub waiters : List Waiter
  pub head : ℕ
  pub tail : ℕ
  pub fence_token : Option String
  pub commands : Dict Command

pub record Idempotency : Type 0 where
  pub key : String
  pub fingerprint : Option String

pub record AppendOptions : Type 0 where
  pub expected_tail : Option ℕ
  pub idempotency : Option Idempotency
  pub fence : Option String
  pub fencing_token : Option String

pub record AppendResult : Type 0 where
  pub sequences : List ℕ
  pub tail : ℕ
  pub deduplicated : Bool

pub data AppendError : Type 0 where
  too_large : (type : EventType) (bytes : ℕ) → AppendError
  reused_key : (key : String) → AppendError
  conflict : (expected_tail actual_tail : ℕ) → AppendError
  fenced : (token : String) → AppendError

pub data Outcome : Type 0 where
  ok : AppendResult → Outcome
  err : AppendError → Outcome

abbrev pub empty_log : RunLog
empty_log = record {
  events = [];
  waiters = [];
  head = 1;
  tail = 0;
  fence_token = none;
  commands = [];
}

abbrev pub default_max_event_bytes : ℕ
default_max_event_bytes = 1024 * 1024

-- `assertEventByteLimits`: the first event above the limit is the error.
unfoldable pub over_limit : (EventEnvelope → ℕ) → String → List EventEnvelope → Option AppendError
over_limit size run_id [] = none
over_limit size run_id (event ∷ events) =
    let bytes = size (record event { run_id = run_id }) in
    if ltb default_max_event_bytes bytes
    then some (too_large event.type bytes)
    else over_limit size run_id events

-- Numbering from the sequence after `tail`.
unfoldable pub assign : String → ℕ → List EventEnvelope → List EventEnvelope
assign run_id tail [] = []
assign run_id tail (event ∷ events) =
    with_assigned_seq event run_id (tail + 1) ∷ assign run_id (tail + 1) events

abbrev pub offer : List EventEnvelope → Waiter → Waiter
offer appended w = record w {
  queue = w.queue ++ filter (λ event. leb w.from_seq event.seq) appended;
}

-- Two fingerprints that are both known and differ.
abbrev pub differ : Option String → Option String → Bool
differ (some a) (some b) = not (a == b)
differ _ _ = false

abbrev same_tail : Option ℕ → ℕ → Bool
same_tail none tail = true
same_tail (some expected) tail = eqb tail expected

abbrev same_token : Option String → Option String → Bool
same_token none current = true
same_token (some token) current = is_the current token

-- The tail and the fencing token after the fence command of a batch, if it has one.
abbrev pub fenced_tail : ℕ → Option String → ℕ
fenced_tail tail none = tail
fenced_tail tail (some fence) = tail + 1

abbrev fenced_token : Option String → Option String → Option String
fenced_token current none = current
fenced_token current (some fence) = if fence == "" then none else some fence

abbrev pub claim : Dict Command → Option Idempotency → ℕ → Dict Command
claim commands none tail = commands
claim commands (some i) tail =
    put i.key (record { fingerprint = i.fingerprint; committed_tail = tail }) commands

abbrev pub claimed : Dict Command → Option Idempotency → Option Command
claimed commands none = none
claimed commands (some i) = get i.key commands

-- The log after a batch that passed every test.
unfoldable pub commit : String → RunLog → List EventEnvelope → AppendOptions → RunLog
unfolding assign put
commit run_id log events options =
    let start = fenced_tail log.tail options.fence in
    let appended = assign run_id start events in
    record {
      events = log.events ++ appended;
      waiters = map (offer appended) log.waiters;
      head = log.head;
      tail = start + length events;
      fence_token = fenced_token log.fence_token options.fence;
      commands = claim log.commands options.idempotency (start + length events);
    }

abbrev fingerprint_of : Option Idempotency → Option String
fingerprint_of none = none
fingerprint_of (some i) = i.fingerprint

abbrev key_of : Option Idempotency → String
key_of none = ""
key_of (some i) = i.key

-- A batch whose key is claimed appends nothing.
abbrev replayed : RunLog → AppendOptions → Command → Outcome × RunLog
replayed log options command =
    if differ (fingerprint_of options.idempotency) command.fingerprint
    then (err (reused_key (key_of options.idempotency)), log)
    else (ok (record { sequences = []; tail = log.tail; deduplicated = true }), log)

-- The tests of a batch whose key is not claimed, in their order.
unfoldable pub append_new : String → RunLog → List EventEnvelope → AppendOptions → Outcome × RunLog
append_new run_id log events options =
    if not (same_tail options.expected_tail log.tail)
    then (err (conflict (or_else options.expected_tail 0) log.tail), log)
    else if not (same_token options.fencing_token log.fence_token)
    then (err (fenced (or_else options.fencing_token "")), log)
    else (
      ok (record {
        sequences =
            map (λ event. event.seq) (assign run_id (fenced_tail log.tail options.fence) events);
        tail = fenced_tail log.tail options.fence + length events;
        deduplicated = false;
      }),
      commit run_id log events options,
    )

abbrev append_claimed :
    String → RunLog → List EventEnvelope → AppendOptions → Option Command → Outcome × RunLog
append_claimed run_id log events options (some command) = replayed log options command
append_claimed run_id log events options none = append_new run_id log events options

module _ (size : EventEnvelope → ℕ) where
  abbrev append_checked :
      String → RunLog → List EventEnvelope → AppendOptions → Option AppendError → Outcome × RunLog
  append_checked run_id log events options (some e) = (err e, log)
  append_checked run_id log events options none =
      append_claimed run_id log events options (claimed log.commands options.idempotency)

  -- `append`, on the log of the run
  unfoldable pub append_log :
      String → RunLog → List EventEnvelope → AppendOptions → Outcome × RunLog
  append_log run_id log events options =
      append_checked run_id log events options (over_limit size run_id events)

-- `getOrCreate`
abbrev pub log_of : String → Dict RunLog → RunLog
log_of run_id logs = or_else (get run_id logs) empty_log

module _ (size : EventEnvelope → ℕ) where
  -- `append`, on the store. A batch that is refused or replayed leaves a run without a log
  -- without one; the model puts the empty log there, which reads the same.
  unfoldable pub append :
      Dict RunLog → String → List EventEnvelope → AppendOptions → Outcome × Dict RunLog
  unfolding append_log get put
  append logs run_id events options =
      let (outcome, log) = append_log size run_id (log_of run_id logs) events options in
      (outcome, put run_id log logs)
