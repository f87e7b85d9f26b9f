-- ===== src/Core/Store/Subscribe.antt =====
-- packages/core/src/store.ts: what a subscriber is given agrees with what a reader gets.
use looms.Prelude.{
  or_else, ℕ, String, Option, none, some, List, [], ◌∷◌, ◌++◌, ◌≡◌, refl, arith, sym, ap, ◌∙◌, leb,
  eqb, not, filter, max, map, All, All-filter, All-append,
}
use looms.Core.Envelope.{EventEnvelope}
use looms.Core.Store.Log.{RunLog, Waiter, AppendOptions, commit, assign, fenced_tail, offer}
use looms.Core.Store.Reads.{trim_log, subscribe_log, unsubscribe_log, read_log}
use looms.Core.Store.Steps.{Steps, steps-keep}
use looms.Core.Store.Append.{filter-append}

-- The events of a queue that are still retained are those that a read from the subscription's
-- first sequence number gives.
abbrev pub IsFed : RunLog → Waiter → Type 0
IsFed log w = filter (λ e. leb log.head e.seq) w.queue ≡ read_log log (some w.from_seq) none

abbrev pub AllFed : RunLog → Type 0
AllFed log = All (IsFed log) log.waiters

filter-filter :
    (a b : ℕ) (es : List EventEnvelope)
    → filter (λ e. leb a e.seq) (filter (λ e. leb b e.seq) es)
      ≡ filter (λ e. leb (max b a) e.seq) es
filter-filter a b [] = refl
filter-filter a b (e ∷ es) = ground (arith, filter-filter a b es)

All-offer :
    (run_id : String) (log : RunLog) (events : List EventEnvelope) (options : AppendOptions)
    (ws : List Waiter)
    → All (IsFed log) ws
    → All
        (IsFed (commit run_id log events options))
        (map (offer (assign run_id (fenced_tail log.tail options.fence) events)) ws)
unfolding commit read_log
All-offer run_id log events options [] h = tt
All-offer run_id log events options (w ∷ ws) (fed, h) =
    let start = fenced_tail log.tail options.fence in
    let appended = assign run_id start events in
    let new = filter (λ e. leb w.from_seq e.seq) appended in
    let step : filter (λ e. leb log.head e.seq) (w.queue ++ new)
        ≡ filter (λ e. leb (max w.from_seq log.head) e.seq) (log.events ++ appended) =
      filter-append (λ e. leb log.head e.seq) w.queue new
      ∙ rw (fed, filter-filter log.head w.from_seq appended)
          (sym (filter-append (λ e. leb (max w.from_seq log.head) e.seq) log.events appended)) in
    (step, All-offer run_id log events options ws h)

All-trim :
    (log : RunLog) (before : ℕ) (ws : List Waiter)
    → All (IsFed log) ws
    → All (IsFed (trim_log log before)) ws
unfolding trim_log read_log
All-trim log before [] h = tt
All-trim log before (w ∷ ws) (fed, h) = (
  sym (filter-filter before log.head w.queue)
      ∙ ap (λ es. filter (λ e. leb before e.seq) es) fed
      ∙ filter-filter before (max w.from_seq log.head) log.events
      ∙ ap (λ n. filter (λ e. leb n e.seq) log.events) (omega arith)
      ∙ sym (filter-filter (max w.from_seq (max log.head before)) before log.events),
  All-trim log before ws h,
)

subscribe-fed :
    (log : RunLog) (token : ℕ) (from_seq : Option ℕ)
    → AllFed log
    → AllFed (subscribe_log log token from_seq)
unfolding subscribe_log read_log
subscribe-fed log token from_seq h =
    All-append (IsFed (subscribe_log log token from_seq)) log.waiters _ h
      (filter-filter log.head (or_else from_seq 1) log.events, tt)

module _ (size : EventEnvelope → ℕ) (run_id : String) where
  -- If every subscriber's queue holds, of the events that are still retained, exactly those that a
  -- read from its first sequence number gives, in the same order, this stays so through appends,
  -- trims up to the next event, new subscriptions and their ends.
  pub Steps-AllFed : {a b : RunLog} → Steps size run_id a b → AllFed a → AllFed b
  unfolding unsubscribe_log read_log
  Steps-AllFed =
      steps-keep size run_id AllFed
        (λ log events options free h.
          unfold commit in All-offer run_id log events options log.waiters h)
        (λ log before small h. unfold trim_log in All-trim log before log.waiters h)
        (λ log token from h. subscribe-fed log token from h)
        (λ log token h. All-filter (IsFed log) (λ w. not (eqb w.token token)) log.waiters h)
