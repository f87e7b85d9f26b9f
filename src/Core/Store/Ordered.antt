-- ===== src/Core/Store/Ordered.antt =====
-- packages/core/src/store.ts: the events of a log are numbered in ascending order between its
-- head and its tail.
use looms.Prelude.{
  subst, ℕ, suc, ◌+◌, ◌≤◌, String, Option, none, some, List, [], ◌∷◌, ◌++◌, ◌≡◌, refl, arith, leb,
  filter, length, max,
}
use looms.Core.Envelope.{EventEnvelope}
use looms.Core.Store.Log.{RunLog, AppendOptions, commit, assign, fenced_tail}
use looms.Core.Store.Reads.{trim_log, subscribe_log, unsubscribe_log}
use looms.Core.Store.Steps.{Steps, steps-keep}

-- The sequence numbers rise from `low` on and end at or below `high`.
abbrev pub Rising : ℕ → ℕ → List EventEnvelope → Type 0
Rising low high [] = Unit
Rising low high (e ∷ es) = (low ≤ e.seq) × (e.seq ≤ high) × Rising (suc e.seq) high es

abbrev pub IsOrdered : RunLog → Type 0
IsOrdered log = (log.head ≤ suc log.tail) × Rising log.head log.tail log.events

Rising-append :
    (low middle high : ℕ) (es fs : List EventEnvelope)
    → low ≤ suc middle
    → middle ≤ high
    → Rising low middle es
    → Rising (suc middle) high fs
    → Rising low high (es ++ fs)
Rising-append low middle high [] [] a b h k = tt
Rising-append low middle high [] (f ∷ fs) a b h (c, d, k) = (omega arith, d, k)
Rising-append low middle high (e ∷ es) fs a b (c, d, h) k =
    (c, omega arith, Rising-append (suc e.seq) middle high es fs (omega arith) b h k)

pub Rising-assign :
    (run_id : String) (start : ℕ) (events : List EventEnvelope)
    → Rising (suc start) (start + length events) (assign run_id start events)
unfolding assign
Rising-assign run_id start [] = tt
Rising-assign run_id start (e ∷ es) = (
  omega arith,
  omega arith,
  subst (λ high. Rising (suc (start + 1)) high (assign run_id (start + 1) es)) (omega arith)
      (Rising-assign run_id (start + 1) es),
)

pub Rising-weaken :
    (low low' high : ℕ) (es : List EventEnvelope)
    → low ≤ low'
    → Rising low' high es
    → Rising low high es
Rising-weaken low low' high [] a h = tt
Rising-weaken low low' high (e ∷ es) a (b, c, h) = (omega arith, c, h)

Rising-raise :
    (low high high' : ℕ) (es : List EventEnvelope)
    → high ≤ high'
    → Rising low high es
    → Rising low high' es
Rising-raise low high high' [] a h = tt
Rising-raise low high high' (e ∷ es) a (b, c, h) =
    (b, omega arith, Rising-raise (suc e.seq) high high' es a h)

Rising-filter :
    (low high before : ℕ) (es : List EventEnvelope)
    → Rising low high es
    → Rising (max low before) high (filter (λ e. leb before e.seq) es)
Rising-filter low high before [] h = tt
Rising-filter low high before (e ∷ es) (a, b, h) =
    let rest = Rising-filter (suc e.seq) high before es h in
    ground (
      arith,
      Rising-weaken (suc e.seq) (max (suc e.seq) before) high (filter (λ x. leb before x.seq) es),
      Rising-weaken (max low before) (max (suc e.seq) before) high
          (filter (λ x. leb before x.seq) es),
    )

-- Every event of a rising list is at or above its low end.
pub filter-Rising :
    (low high from : ℕ) (es : List EventEnvelope)
    → from ≤ low
    → Rising low high es
    → filter (λ e. leb from e.seq) es ≡ es
filter-Rising low high from [] a h = refl
filter-Rising low high from (e ∷ es) a (b, c, h) =
    ground (arith, filter-Rising (suc e.seq) high from es (omega arith) h)

pub tail-fenced_tail : (tail : ℕ) (fence : Option String) → tail ≤ fenced_tail tail fence
tail-fenced_tail tail none = omega arith
tail-fenced_tail tail (some f) = omega arith

commit-IsOrdered :
    (run_id : String) (log : RunLog) (events : List EventEnvelope) (options : AppendOptions)
    → IsOrdered log
    → IsOrdered (commit run_id log events options)
unfolding commit
commit-IsOrdered run_id log events options (h, r) =
    let start = fenced_tail log.tail options.fence in
    let later = tail-fenced_tail log.tail options.fence in
    (
      omega arith,
      Rising-append log.head start (start + length events) log.events (assign run_id start events)
          (omega arith) (omega arith) (Rising-raise log.head log.tail start log.events later r)
          (Rising-assign run_id start events),
    )

module _ (size : EventEnvelope → ℕ) (run_id : String) where
  -- If the head of a log is at most one past its tail, and the sequence numbers of its events rise
  -- strictly between the two, this stays so however appends, trims up to the next event,
  -- subscriptions and their ends follow each other.
  pub Steps-IsOrdered : {a b : RunLog} → Steps size run_id a b → IsOrdered a → IsOrdered b
  unfolding trim_log subscribe_log unsubscribe_log
  Steps-IsOrdered =
      steps-keep size run_id IsOrdered
        (λ log events options free h. commit-IsOrdered run_id log events options h)
        (λ log before h (k, r). (omega arith, Rising-filter log.head log.tail before log.events r))
        (λ log token from h. h) (λ log token h. h)
