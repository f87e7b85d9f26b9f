-- ===== src/Core/Store/Retry.antt =====
-- packages/core/src/store.ts: appends that are repeated, and appends that race.
use looms.Prelude.{
  ℕ, suc, ◌+◌, ◌≤◌, String, Option, none, some, true, false, List, [], ◌≡◌, refl, arith, eq_refl,
  eq_iff, length,
}
use looms.Prelude.Dict.{Dict, get, get-put}
use looms.Core.Envelope.{EventEnvelope}
use looms.Core.Store.Log.{
  claim, Idempotency, Command, RunLog, AppendOptions, AppendResult, ok, err, conflict, differ,
  Idempotency, Command, claim, commit, claimed, fenced_tail, append_log, append_new, over_limit,
}
use looms.Core.Store.Reads.{trim_log, subscribe_log, unsubscribe_log}
use looms.Core.Store.Append.{append_log-ok}
use looms.Core.Store.Steps.{Steps, steps-keep}
use looms.Core.Store.Ordered.{tail-fenced_tail}

-- The command that a key claimed stays claimed.
claimed-put :
    (commands : Dict Command) (i : Idempotency) (other : Option Idempotency) (tail : ℕ)
    (c : Command)
    → claimed commands other ≡ none
    → get i.key commands ≡ some c
    → get i.key (claim commands other tail) ≡ some c
claimed-put commands i none tail c free h = h
claimed-put commands i (some o) tail c free h = ground (
  arith,
  eq_iff o.key i.key,
  get-put o.key i.key (record { fingerprint = o.fingerprint; committed_tail = tail }) commands,
)

differ_refl : (f : Option String) → differ f f ≡ false
differ_refl none = refl
differ_refl (some f) = simp eq_refl

module _ (size : EventEnvelope → ℕ) (run_id : String) where
  Steps-claimed :
      (i : Idempotency) (c : Command) {a b : RunLog}
      → Steps size run_id a b
      → get i.key a.commands ≡ some c
      → get i.key b.commands ≡ some c
  unfolding commit trim_log subscribe_log unsubscribe_log
  Steps-claimed i c =
      steps-keep size run_id (λ log. get i.key log.commands ≡ some c)
        (λ log events options free h.
          claimed-put log.commands i options.idempotency
            (fenced_tail log.tail options.fence + length events) c free h)
        (λ log before small h. h) (λ log token from h. h) (λ log token h. h)

  -- A key that was claimed with a fingerprint replays: nothing is appended.
  replay-claimed :
      (log : RunLog) (events : List EventEnvelope) (options : AppendOptions) (i : Idempotency)
      (tail : ℕ)
      → options.idempotency ≡ some i
      → over_limit size run_id events ≡ none
      → get i.key log.commands
        ≡ some (record { fingerprint = i.fingerprint; committed_tail = tail })
      → append_log size run_id log events options
        ≡ (ok (record { sequences = []; tail = log.tail; deduplicated = true }), log)
  unfolding append_log
  replay-claimed log events options i tail keyed small h = ground (arith, differ_refl i.fingerprint)

  small-of_ok :
      (log : RunLog) (events : List EventEnvelope) (options : AppendOptions) (r : AppendResult)
      → (append_log size run_id log events options).0 ≡ ok r
      → over_limit size run_id events ≡ none
  unfolding append_log
  small-of_ok log events options r success = ground arith

  -- An append under an idempotency key that succeeded and was not itself deduplicated, repeated
  -- after any further operations on the log, succeeds, reports that it was deduplicated, and leaves
  -- the log as it was.
  pub append_log_retry :
      (log later : RunLog) (events : List EventEnvelope) (options : AppendOptions) (i : Idempotency)
      (r : AppendResult)
      → options.idempotency ≡ some i
      → (append_log size run_id log events options).0 ≡ ok r
      → r.deduplicated ≡ false
      → Steps size run_id (append_log size run_id log events options).1 later
      → append_log size run_id later events options
        ≡ (ok (record { sequences = []; tail = later.tail; deduplicated = true }), later)
  unfolding commit
  append_log_retry log later events options i r keyed success fresh steps =
      let (numbers, tail, free, e) = append_log-ok size run_id log events options r success fresh in
      let end = fenced_tail log.tail options.fence + length events in
      replay-claimed later events options i end keyed (small-of_ok log events options r success) (
        Steps-claimed i (record { fingerprint = i.fingerprint; committed_tail = end }) steps
          (rw
            (
              e,
              keyed,
              get-put i.key i.key (record { fingerprint = i.fingerprint; committed_tail = end })
                  log.commands,
              eq_refl i.key,
            )
            refl))

  Steps-tail : {a b : RunLog} (n : ℕ) → Steps size run_id a b → n ≤ a.tail → n ≤ b.tail
  unfolding commit trim_log subscribe_log unsubscribe_log
  Steps-tail n =
      steps-keep size run_id (λ log. n ≤ log.tail)
        (λ log events options free h.
          let l = tail-fenced_tail log.tail options.fence in omega arith)
        (λ log before small h. h) (λ log token from h. h) (λ log token h. h)

  -- A fresh append with an expected tail found the log at it.
  tail_of_ok :
      (log : RunLog) (events : List EventEnvelope) (options : AppendOptions) (r : AppendResult)
      (n : ℕ)
      → options.expected_tail ≡ some n
      → (append_log size run_id log events options).0 ≡ ok r
      → r.deduplicated ≡ false
      → log.tail ≡ n
  unfolding append_log append_new
  tail_of_ok log events options r n expect success fresh = ground arith

  -- Of two batches for the same expected tail, once the first is newly appended and holds an event,
  -- the second, whatever happens in between, is refused with a conflict, unless one of its events is
  -- too large or its key is claimed.
  pub append_log-conflict :
      (log later : RunLog) (n : ℕ) (events others : List EventEnvelope)
      (first second : AppendOptions) (r : AppendResult)
      → 1 ≤ length events
      → first.expected_tail ≡ some n
      → second.expected_tail ≡ some n
      → (append_log size run_id log events first).0 ≡ ok r
      → r.deduplicated ≡ false
      → Steps size run_id (append_log size run_id log events first).1 later
      → over_limit size run_id others ≡ none
      → claimed later.commands second.idempotency ≡ none
      → append_log size run_id later others second ≡ (err (conflict n later.tail), later)
  unfolding append_log append_new commit
  append_log-conflict log later n events others first second r some_event expect expect' success
        fresh steps small free =
      let (numbers, tail, unclaimed, e) =
        append_log-ok size run_id log events first r success fresh in
      let at : log.tail ≡ n = tail_of_ok log events first r n expect success fresh in
      let past : suc n ≤ later.tail =
        Steps-tail (suc n) steps
          (rw e (let l = tail-fenced_tail log.tail first.fence in omega arith)) in
      ground arith
