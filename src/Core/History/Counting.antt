-- ===== src/Core/History/Counting.antt =====
-- packages/core/src/snapshots.ts and cursor.ts: two ways to count the events since a snapshot.
use looms.Prelude.{
  ℕ, suc, ◌+◌, ◌≤◌, String, Option, none, some, false, List, [], ◌∷◌, ◌≡◌, inl, inr, refl, arith,
  ◌&&◌, leb, ltb, length, filter, All, Bool-cases, Option-cases, ◌∙◌, ap, sym,
}
use looms.Core.Envelope.{EventEnvelope}
use looms.Core.Fold.Protocol.{Decoders, Registry}
use looms.Core.Store.Ordered.{Rising, Rising-weaken}
use looms.Core.History.Cursor.{
  RunCursor, empty_cursor, is_snapshot, count_durable, advance, advance_cursor,
}
use looms.Core.History.Snapshots.{
  last_snapshot, folded, since_last, has_events, should_take_snapshot,
}

-- A snapshot event is durable.
abbrev pub SnapshotsDurable : List EventEnvelope → Type 0
SnapshotsDurable = All (λ event. (event.ephemeral && is_snapshot event.type) ≡ false)

counted : ℕ → List EventEnvelope → ℕ
counted count [] = count
counted count (event ∷ events) = counted (count_durable count event) events

advance_cursor-counted :
    (d : Decoders) (registry : Registry) (cursor : RunCursor) (events : List EventEnvelope)
    → (advance_cursor d registry cursor events).durable_since_snapshot
      ≡ counted cursor.durable_since_snapshot events
unfolding advance_cursor counted
advance_cursor-counted d registry cursor [] = refl
advance_cursor-counted d registry cursor (event ∷ events) =
    advance_cursor-counted d registry (advance d registry cursor event) events

last_snapshot-Rising :
    (low high : ℕ) (events : List EventEnvelope) (snap : EventEnvelope)
    → Rising low high events
    → last_snapshot events ≡ some snap
    → low ≤ snap.seq
last_snapshot-Rising low high [] snap r e = cc
last_snapshot-Rising low high (x ∷ xs) snap (a, b, r) e = elim (Option-cases (last_snapshot xs)) [
  | inl missing ↦ ground arith
  | inr (s, found) ↦ let later = last_snapshot-Rising (suc x.seq) high xs s r found in ground arith
]

-- Above the numbers of all earlier events, every event counts.
filter-above :
    (seq high : ℕ) (events : List EventEnvelope)
    → Rising (suc seq) high events
    → filter (λ event. ltb seq event.seq) (folded events) ≡ folded events
filter-above seq high [] r = refl
filter-above seq high (x ∷ xs) (a, b, r) =
    ground (
      arith,
      filter-above seq high xs (Rising-weaken (suc seq) (suc x.seq) high xs (omega arith) r),
    )

counted-since_last :
    (low high count : ℕ) (events : List EventEnvelope)
    → Rising low high events
    → SnapshotsDurable events
    → counted count events ≡ (elim (last_snapshot events) [
      | none ↦ count + length (folded events)
      | some snap ↦ since_last (some snap) (folded events)
    ])
unfolding counted
counted-since_last low high count [] r h = omega arith
counted-since_last low high count (x ∷ xs) (a, b, r) (h, hs) =
    let rest = counted-since_last (suc x.seq) high (count_durable count x) xs r hs in
    elim (Option-cases (last_snapshot xs)) [
      | inl missing ↦ elim (Bool-cases (is_snapshot x.type)) [
        | inl snap ↦ ground (arith, filter-above x.seq high xs r)
        | inr other ↦ ground arith
      ]
      | inr (s, found) ↦
          let later = last_snapshot-Rising (suc x.seq) high xs s r found in ground arith
    ]

has_events-since_last :
    (every : ℕ) (snap : Option EventEnvelope) (durable : List EventEnvelope)
    → 1 ≤ every
    → (has_events durable && leb every (since_last snap durable))
      ≡ leb every (since_last snap durable)
has_events-since_last every none [] h = ground arith
has_events-since_last every (some snap) [] h = ground arith
has_events-since_last every snap (x ∷ xs) h = refl

since_last_cases :
    (snap : Option EventEnvelope) (durable : List EventEnvelope)
    → (elim snap [ none ↦ 0 + length durable | some s ↦ since_last (some s) durable ])
      ≡ since_last snap durable
since_last_cases none durable = omega arith
since_last_cases (some s) durable = refl

-- For a log in the order of its numbers whose snapshot markers are durable, and a positive distance, a
-- snapshot is due by the events if and only if it is due by the count that a cursor keeps of them.
pub should_take_snapshot-advance_cursor :
    (d : Decoders) (registry : Registry) (run_id : String) (low high every : ℕ)
    (events : List EventEnvelope)
    → Rising low high events
    → SnapshotsDurable events
    → 1 ≤ every
    → should_take_snapshot events every
      ≡ leb every (advance_cursor d registry (empty_cursor run_id) events).durable_since_snapshot
unfolding should_take_snapshot
should_take_snapshot-advance_cursor d registry run_id low high every events r h positive =
    let same = advance_cursor-counted d registry (empty_cursor run_id) events in
    let count = counted-since_last low high 0 events r h in
    let cases = since_last_cases (last_snapshot events) (folded events) in
    has_events-since_last every (last_snapshot events) (folded events) positive
    ∙ ap (leb every) (sym (same ∙ count ∙ cases))
