-- ===== src/Core/Store/Steps.antt =====
-- packages/core/src/store.ts: the operations on one log as a step relation.
use looms.Prelude.{ℕ, suc, ◌≤◌, ◌⊎◌, inl, inr, subst, sym, String, Option, none, List, ◌≡◌, arith}
use looms.Core.Envelope.{EventEnvelope}
use looms.Core.Store.Log.{RunLog, AppendOptions, append_log, append_new, commit, claimed}
use looms.Core.Store.Reads.{trim_log, subscribe_log, unsubscribe_log}

-- What may happen to the log of a run. A trim is not past the event that comes next.
pub data Step (size : EventEnvelope → ℕ) (run_id : String) : RunLog → RunLog → Type 0 where
  appends :
      (log : RunLog) (events : List EventEnvelope) (options : AppendOptions)
      → Step size run_id log (append_log size run_id log events options).1
  trims :
      (log : RunLog) (before : ℕ)
      → before ≤ suc log.tail
      → Step size run_id log (trim_log log before)
  subscribes :
      (log : RunLog) (token : ℕ) (from_seq : Option ℕ)
      → Step size run_id log (subscribe_log log token from_seq)
  unsubscribes : (log : RunLog) (token : ℕ) → Step size run_id log (unsubscribe_log log token)

pub data Steps (size : EventEnvelope → ℕ) (run_id : String) : RunLog → RunLog → Type 0 where
  stay : (log : RunLog) → Steps size run_id log log
  then : {a b c : RunLog} → Steps size run_id a b → Step size run_id b c → Steps size run_id a c

-- What an append does to the log: it commits the batch, its key not being claimed, or keeps it.
module _ (size : EventEnvelope → ℕ) (run_id : String) where
  pub append_log-cases :
      (log : RunLog) (events : List EventEnvelope) (options : AppendOptions)
      → ((claimed log.commands options.idempotency ≡ none)
          × ((append_log size run_id log events options).1 ≡ commit run_id log events options))
        ⊎ ((append_log size run_id log events options).1 ≡ log)
  unfolding append_log append_new
  append_log-cases log events options = ground arith

module _ (size : EventEnvelope → ℕ) (run_id : String) (P : RunLog → Type 0)
    (commits : (log : RunLog) (events : List EventEnvelope) (options : AppendOptions)
      → claimed log.commands options.idempotency ≡ none
      → P log
      → P (commit run_id log events options))
    (trimmed : (log : RunLog) (before : ℕ)
      → before ≤ suc log.tail
      → P log
      → P (trim_log log before))
    (subscribed : (log : RunLog) (token : ℕ) (from_seq : Option ℕ)
      → P log
      → P (subscribe_log log token from_seq))
    (unsubscribed : (log : RunLog) (token : ℕ) → P log → P (unsubscribe_log log token)) where
  step-keeps : {a b : RunLog} → Step size run_id a b → P a → P b
  step-keeps (appends log events options) p =
      elim (append_log-cases size run_id log events options) [
        | inl (free, e) ↦ subst P (sym e) (commits log events options free p)
        | inr e ↦ subst P (sym e) p
      ]
  step-keeps (trims log before h) p = trimmed log before h p
  step-keeps (subscribes log token from_seq) p = subscribed log token from_seq p
  step-keeps (unsubscribes log token) p = unsubscribed log token p

  -- A property that every operation keeps holds along all of them.
  pub steps-keep : {a b : RunLog} → Steps size run_id a b → P a → P b
  steps-keep (stay log) p = p
  steps-keep (then before last) p = step-keeps last (steps-keep before p)
