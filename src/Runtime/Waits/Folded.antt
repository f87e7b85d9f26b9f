-- ===== src/Runtime/Waits/Folded.antt =====
-- packages/runtime/src/helpers.ts and packages/core/src/fold.ts: the waits that are left once the events of
-- `waitSatisfiedEvents` are folded.
use looms.Prelude.{
  ℕ, suc, String, none, false, List, [], ◌∷◌, ◌≡◌, ◌==◌, refl, ap, sym, ◌∙◌, subst, map, All,
  All-append, All-filter, if◌then◌else◌, Bool-cases, inl, inr,
}
use looms.Prelude.Dict.{Dict, get, remove, values, Entries, Entries-remove}
use looms.Core.Json.{field_of, read_string}
use looms.Core.Envelope.{EventEnvelope, EventInput, create_event}
use looms.Core.State.{RunState, WaitRecord}
use looms.Core.Match.{matching_waits}
use looms.Core.Fold.Protocol.{Decoders, Registry}
use looms.Core.Fold.Consistent.{IsKeyed-fold_event}
use looms.Core.Fold.Keyed.{IsKeyed}
use looms.Core.Fold.Step.{fold_event, fold_run}
use looms.Core.Fold.Waiting.{fold_event-waits, race_of, outside}
use looms.Runtime.Synthesis.{create_events}
use looms.Runtime.Waits.{
  drop_waits, is_passed_over, satisfied_from, satisfied_input, satisfied_payload,
}
use looms.Runtime.Waits.Exactly.{satisfied_id, matches_of}
use looms.Runtime.Waits.Shared.{left, left-cons}

-- An input that reports a wait with an id.
abbrev pub IsReport : EventInput → Type 0
IsReport input =
    (event : EventEnvelope) × (w : WaitRecord) × (input ≡ satisfied_input event w)
    × ((w.wait_id == "") ≡ false)

-- Every wait has an id.
abbrev pub WaitsNamed : Dict WaitRecord → Type 0
WaitsNamed m = Entries (λ k w. (w.wait_id == "") ≡ false) m

abbrev HasId : WaitRecord → Type 0
HasId w = (w.wait_id == "") ≡ false

WaitsNamed-values : (m : Dict WaitRecord) → WaitsNamed m → All HasId (values m)
unfolding values
WaitsNamed-values [] h = tt
WaitsNamed-values ((k, w) ∷ m) (named, h) = (named, WaitsNamed-values m h)

drop_waits-WaitsNamed :
    (ws : List WaitRecord) (m : Dict WaitRecord) → WaitsNamed m → WaitsNamed (drop_waits ws m)
unfolding drop_waits
drop_waits-WaitsNamed [] m h = h
drop_waits-WaitsNamed (w ∷ ws) m h =
    drop_waits-WaitsNamed ws (remove w.wait_id m)
      (Entries-remove (λ k v. (v.wait_id == "") ≡ false) w.wait_id m h)

map-IsReport :
    (event : EventEnvelope) (ws : List WaitRecord)
    → All HasId ws
    → All IsReport (map (satisfied_input event) ws)
map-IsReport event [] h = tt
map-IsReport event (w ∷ ws) (named, h) = ((event, w, refl, named), map-IsReport event ws h)

pub satisfied_from-IsReport :
    (events : List EventEnvelope) (m : Dict WaitRecord)
    → WaitsNamed m
    → All IsReport (satisfied_from events m)
unfolding satisfied_from matching_waits
satisfied_from-IsReport [] m h = tt
satisfied_from-IsReport (event ∷ events) m h =
    let matches = matches_of event m in
    let named = All-filter HasId _ (values m) (WaitsNamed-values m h) in
    let passed = satisfied_from-IsReport events m h in
    let rest =
      satisfied_from-IsReport events (drop_waits matches m) (drop_waits-WaitsNamed matches m h) in
    elim (Bool-cases (is_passed_over event)) [
      | inl over ↦ rw over passed
      | inr seen ↦ rw seen (All-append IsReport _ _ (map-IsReport event _ named) rest)
    ]

-- `xs` in reverse order, before `ids`.
abbrev pub onto : List String → List String → List String
onto [] ids = ids
onto (x ∷ xs) ids = onto xs (x ∷ ids)

module _ (d : Decoders) (registry : Registry) (m : Dict WaitRecord) where
  -- The waits of a keyed state are those that are left of the table.
  abbrev pub LeftIn : List String → RunState → Type 0
  LeftIn ids s = IsKeyed s × ((j : String) → get j s.waits ≡ left m ids j)

  LeftIn-cons :
      (new_id : String) (clock : ℕ) (run_id : String) (event : EventEnvelope) (w : WaitRecord)
      (ids : List String) (s : RunState)
      → (w.wait_id == "") ≡ false
      → LeftIn ids s
      → LeftIn
          (w.wait_id ∷ ids)
          (fold_event d registry s (create_event new_id clock run_id (satisfied_input event w) 0))
  unfolding create_event satisfied_payload read_string field_of
  LeftIn-cons new_id clock run_id event w ids s named (keyed, waits) =
      let e = create_event new_id clock run_id (satisfied_input event w) 0 in
      (
        IsKeyed-fold_event d registry s e refl keyed,
        λ j.
            fold_event-waits d registry s e w.wait_id j keyed refl refl (rw named refl)
            ∙ ap (λ o. if w.wait_id == j then none else outside (race_of o) (get j s.waits))
                (waits w.wait_id)
            ∙ ap (λ o. if w.wait_id == j then none else outside (race_of (left m ids w.wait_id)) o)
                (waits j)
            ∙ sym (left-cons m ids w.wait_id j),
      )

  pub LeftIn-fold_run :
      (new_id : ℕ → String) (clock : ℕ → ℕ) (run_id : String) (inputs : List EventInput) (n : ℕ)
      (ids : List String) (s : RunState)
      → All IsReport inputs
      → LeftIn ids s
      → LeftIn
          (onto (map satisfied_id inputs) ids)
          (fold_run d registry s (create_events new_id clock run_id n inputs))
  unfolding fold_run create_events satisfied_id satisfied_payload read_string field_of
  LeftIn-fold_run new_id clock run_id [] n ids s all h = h
  LeftIn-fold_run new_id clock run_id (input ∷ inputs) n ids s ((event, w, same, named), all) h =
      let next = λ (x : EventInput).
        fold_event d registry s (create_event (new_id n) (clock n) run_id x 0) in
      let first : LeftIn (satisfied_id input ∷ ids) (next input) =
        subst (λ x. LeftIn (satisfied_id x ∷ ids) (next x)) (sym same)
          (LeftIn-cons (new_id n) (clock n) run_id event w ids s named h) in
      LeftIn-fold_run new_id clock run_id inputs (suc n) (satisfied_id input ∷ ids) (next input) all
        first
