-- ===== src/Core/Store/Reads.antt =====
-- packages/core/src/store.ts: reading, trimming and subscribing to the log of a run.
use looms.Prelude.{
  ℕ, ◌-◌, String, Option, none, some, Bool, true, false, List, [], ◌∷◌, ◌++◌, ◌&&◌, not, eqb, leb,
  if◌then◌else◌, max, filter, all, take, or_else, option_map,
}
use looms.Prelude.Dict.{Dict, get}
use looms.Core.Envelope.{EventEnvelope}
use looms.Core.Store.Log.{RunLog}

abbrev limited : Option ℕ → List EventEnvelope → List EventEnvelope
limited none events = events
limited (some limit) events = take limit events

-- `read`
unfoldable pub read_log : RunLog → Option ℕ → Option ℕ → List EventEnvelope
read_log log from_seq limit =
    let from = max (or_else from_seq 1) log.head in
    limited limit (filter (λ event. leb from event.seq) log.events)

-- `trim`, on the log of the run
unfoldable pub trim_log : RunLog → ℕ → RunLog
trim_log log before = record log {
  events = filter (λ event. leb before event.seq) log.events;
  head = max log.head before;
}

-- `subscribe`: the retained events first, then live ones
unfoldable pub subscribe_log : RunLog → ℕ → Option ℕ → RunLog
subscribe_log log token from_seq =
    let from = or_else from_seq 1 in
    record log {
      waiters =
          log.waiters
          ++ record {
            token = token;
            from_seq = from;
            queue = filter (λ event. leb from event.seq) log.events;
          }
            ∷ [];
    }

-- The finalizer of a subscription.
unfoldable pub unsubscribe_log : RunLog → ℕ → RunLog
unsubscribe_log log token = record log {
  waiters = filter (λ w. not (eqb w.token token)) log.waiters;
}

-- `trimEventStoreSafely`: what covers the events that a trim discards.
pub data Coverage : Type 0 where
  archive : (cursor : ℕ) → Coverage
  projectors : (required : List String) (cursors : Dict ℕ) → Coverage

abbrev non_empty : List String → Bool
non_empty [] = false
non_empty (_ ∷ _) = true

-- `(cursors[projector] ?? -1) >= through`
abbrev pub reached : Dict ℕ → ℕ → String → Bool
reached cursors through projector =
    or_else (option_map (λ c. leb through c) (get projector cursors)) false

unfoldable pub covered : Coverage → ℕ → Bool
unfolding get
covered (archive cursor) through = leb through cursor
covered (projectors required cursors) through =
    non_empty required && all (reached cursors through) required

-- none is the refusal.
unfoldable pub trim_safely : RunLog → ℕ → Coverage → Option RunLog
unfolding covered trim_log
trim_safely log before coverage =
    if covered coverage (before - 1) then some (trim_log log before) else none
