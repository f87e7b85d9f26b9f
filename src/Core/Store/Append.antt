-- ===== src/Core/Store/Append.antt =====
-- packages/core/src/store.ts: what an append adds and what a refused one changes.
use looms.Prelude.{
  subst, sym, ap, ℕ, suc, ◌+◌, ◌≤◌, String, none, some, Bool, false, List, [], ◌∷◌, ◌++◌, ◌≡◌, refl,
  arith, subst, sym, ap, ◌∙◌, leb, filter, length, max, map,
}
use looms.Core.Envelope.{EventEnvelope}
use looms.Core.Store.Log.{
  RunLog, AppendOptions, AppendResult, AppendError, ok, err, commit, claimed, assign, fenced_tail,
  append_log, append_new,
}
use looms.Core.Store.Reads.{read_log}
use looms.Core.Store.Ordered.{Rising-weaken, Rising-assign, Rising, IsOrdered, tail-fenced_tail}

module _ (size : EventEnvelope → ℕ) (run_id : String) where
  -- An append that is refused leaves the log as it was.
  pub append_log-refused :
      (log : RunLog) (events : List EventEnvelope) (options : AppendOptions) (e : AppendError)
      → (append_log size run_id log events options).0 ≡ err e
      → (append_log size run_id log events options).1 ≡ log
  unfolding append_log append_new
  append_log-refused log events options e h = ground arith

  -- An append that succeeds either replays a claimed key or commits the batch.
  pub append_log-ok :
      (log : RunLog) (events : List EventEnvelope) (options : AppendOptions) (r : AppendResult)
      → (append_log size run_id log events options).0 ≡ ok r
      → r.deduplicated ≡ false
      → (r.sequences ≡ map (λ e. e.seq) (assign run_id (fenced_tail log.tail options.fence) events))
        × (r.tail ≡ fenced_tail log.tail options.fence + length events)
        × (claimed log.commands options.idempotency ≡ none)
        × ((append_log size run_id log events options).1 ≡ commit run_id log events options)
  unfolding append_log append_new
  append_log-ok log events options r h fresh = ground arith

pub filter-append :
    (p : EventEnvelope → Bool) (xs ys : List EventEnvelope)
    → filter p (xs ++ ys) ≡ filter p xs ++ filter p ys
filter-append p [] ys = refl
filter-append p (x ∷ xs) ys = ground (arith, filter-append p xs ys)

-- Whether events above the head are read does not depend on the head.
filter-max :
    (from head low high : ℕ) (es : List EventEnvelope)
    → head ≤ low
    → Rising low high es
    → filter (λ e. leb (max from head) e.seq) es ≡ filter (λ e. leb from e.seq) es
filter-max from head low high [] a h = refl
filter-max from head low high (e ∷ es) a (b, c, h) =
    ground (arith, filter-max from head (suc e.seq) high es (omega arith) h)

-- An event apart from its run and its sequence number.
abbrev pub bare : EventEnvelope → EventEnvelope
bare event = record event { run_id = ""; seq = 0 }

map-bare-assign :
    (run_id : String) (start : ℕ) (events : List EventEnvelope)
    → map bare (assign run_id start events) ≡ map bare events
unfolding assign
map-bare-assign run_id start [] = refl
map-bare-assign run_id start (e ∷ es) =
    ap (λ xs. bare e ∷ xs) (map-bare-assign run_id (start + 1) es)

module _ (size : EventEnvelope → ℕ) (run_id : String) where
  -- A fresh append to an ordered log adds its events, unchanged apart from their run and number, at
  -- the end of what a read without a limit gives; they carry the numbers that the result lists, which rise strictly above
  -- the old tail and up to the new one.
  pub append_log-read :
      (log : RunLog) (events : List EventEnvelope) (options : AppendOptions) (r : AppendResult)
      (from : ℕ)
      → IsOrdered log
      → (append_log size run_id log events options).0 ≡ ok r
      → r.deduplicated ≡ false
      → (appended : List EventEnvelope) × (map bare appended ≡ map bare events)
        × (map (λ e. e.seq) appended ≡ r.sequences)
        × Rising (suc log.tail) r.tail appended
        × ((append_log size run_id log events options).1.tail ≡ r.tail)
        × (read_log (append_log size run_id log events options).1 (some from) none
            ≡ read_log log (some from) none ++ filter (λ e. leb from e.seq) appended)
  unfolding read_log commit
  append_log-read log events options r from (h, rises) success fresh =
      let (numbers, tail, free, e) = append_log-ok size run_id log events options r success fresh in
      let start = fenced_tail log.tail options.fence in
      let appended = assign run_id start events in
      let later = tail-fenced_tail log.tail options.fence in
      let high : Rising (suc start) (start + length events) appended =
        Rising-assign run_id start events in
      (
        appended,
        map-bare-assign run_id start events,
        sym numbers,
        subst (λ t. Rising (suc log.tail) t appended) (sym tail)
            (Rising-weaken (suc log.tail) (suc start) (start + length events) appended (omega arith)
              high),
        rw e (sym tail),
        rw e (
            filter-append (λ x. leb (max from log.head) x.seq) log.events appended
            ∙ ap (λ xs. filter (λ x. leb (max from log.head) x.seq) log.events ++ xs)
                (filter-max from log.head (suc start) (start + length events) appended (omega arith)
                  high)),
      )
