-- ===== src/Core/Store/Trim.antt =====
-- packages/core/src/store.ts: a trim that is let through loses no event that is needed.
use looms.Prelude.{
  ◌⊎◌, inl, inr, Bool-cases, ℕ, ◌≤◌, ◌-◌, String, none, some, true, false, List, [], ◌∷◌, ◌≡◌, refl,
  arith, leb, not, filter, all,
}
use looms.Prelude.Dict.{Dict}
use looms.Core.Envelope.{EventEnvelope}
use looms.Core.Store.Log.{RunLog}
use looms.Core.Store.Reads.{trim_log, trim_safely, Coverage, archive, projectors, covered, reached}

reached-below :
    (cursors : Dict ℕ) (low high : ℕ) (p : String)
    → low ≤ high
    → reached cursors high p ≡ true
    → reached cursors low p ≡ true
reached-below cursors low high p a h = ground arith

-- What covers an event covers those before it.
all-reached :
    (cursors : Dict ℕ) (low high : ℕ) (required : List String)
    → low ≤ high
    → all (reached cursors high) required ≡ true
    → all (reached cursors low) required ≡ true
all-reached cursors low high [] a h = refl
all-reached cursors low high (p ∷ ps) a h =
    ground (arith, all-reached cursors low high ps, reached-below cursors low high p)

covered-below :
    (coverage : Coverage) (low high : ℕ)
    → low ≤ high
    → covered coverage high ≡ true
    → covered coverage low ≡ true
unfolding covered
covered-below (archive cursor) low high a h = ground arith
covered-below (projectors required cursors) low high a h =
    ground (arith, all-reached cursors low high required)

trim-uncovered :
    (coverage : Coverage) (before : ℕ) (es : List EventEnvelope)
    → covered coverage (before - 1) ≡ true
    → filter (λ e. not (covered coverage e.seq)) (filter (λ e. leb before e.seq) es)
      ≡ filter (λ e. not (covered coverage e.seq)) es
trim-uncovered coverage before [] h = refl
trim-uncovered coverage before (e ∷ es) h =
    ground (arith, covered-below coverage e.seq (before - 1), trim-uncovered coverage before es h)

-- A trim is let through exactly when the event before its first retained sequence number is covered;
-- it then keeps the tail, and every event that the archive, or one of the required projectors, has
-- not reached, in their order.
pub trim_safely-covered :
    (log : RunLog) (before : ℕ) (coverage : Coverage)
    → ((covered coverage (before - 1) ≡ true)
        × ((trimmed : RunLog) × (trim_safely log before coverage ≡ some trimmed)
            × (filter (λ e. not (covered coverage e.seq)) trimmed.events
                ≡ filter (λ e. not (covered coverage e.seq)) log.events)
            × (trimmed.tail ≡ log.tail)))
      ⊎ ((covered coverage (before - 1) ≡ false) × (trim_safely log before coverage ≡ none))
unfolding trim_safely trim_log
trim_safely-covered log before coverage = elim (Bool-cases (covered coverage (before - 1))) [
  | inl held ↦ inl (
    held,
    (trim_log log before, ground arith, trim-uncovered coverage before log.events held, refl),
  )
  | inr lacking ↦ inr (lacking, ground arith)
]
