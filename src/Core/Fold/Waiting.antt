-- ===== src/Core/Fold/Waiting.antt =====
-- Which waits are left when one of them is satisfied.
use looms.Prelude.{
  option_map, String, ◌≡◌, refl, ◌∙◌, Option, none, some, List, [], ◌∷◌, Bool, false, ◌==◌, ◌&&◌,
  any, is_the, truthy, or_else, if◌then◌else◌, Distinct, eq_iff, ◌>>=◌, arith,
}
use looms.Prelude.Dict.{Dict, Entries, get, values, keys, get-remove, get-eq-none}
use looms.Core.Json.{Fields, payload_object, read_string}
use looms.Core.Envelope.{EventEnvelope, wait_satisfied}
use looms.Core.State.{RunState, WaitRecord, OutstandingEffect}
use looms.Core.Fold.Changes.{remove_wait, complete_effect}
use looms.Core.Fold.Protocol.{
  Decoders, Registry, protocol_case, apply_protocol-case, drop_race, drop_losers, wake, race_id,
  wait_satisfied_step,
}
use looms.Core.Fold.Reconcile.{reconcile_effects}
use looms.Core.Fold.Deliver.{deliver, forget_completed_effects}
use looms.Core.Fold.Step.{
  record_event, fold_event, fold_event_durable, protocol_state, delivered_state,
}
use looms.Core.Fold.Keyed.{WaitsKeyed, IsKeyed, WaitsKeyed-remove, IsKeyed-record_event}
use looms.Core.Fold.Ending.{fail_unhandled_effect-other}

-- A wait stays unless it runs in the race.
abbrev pub unless_in : String → Option WaitRecord → Option WaitRecord
unless_in race none = none
unless_in race (some w) = if is_the (race_id w) race then none else some w

abbrev pub outside : Option String → Option WaitRecord → Option WaitRecord
outside none o = o
outside (some race) o = unless_in race o

drop_race-get :
    (race : String) (siblings : List WaitRecord) (s : RunState) (j : String)
    → get j (drop_race race siblings s).waits ≡ (
        if any (λ w. is_the (race_id w) race && w.wait_id == j) siblings
        then none
        else get j s.waits)
unfolding drop_race
drop_race-get race [] s j = refl
drop_race-get race (w ∷ ws) s j = ground (
  arith,
  drop_race-get race ws s j,
  drop_race-get race ws (remove_wait s w.wait_id) j,
  get-remove w.wait_id j s.waits,
)

-- Looking among all the values for one of a key finds the key's value.
any-values :
    (q : WaitRecord → Bool) (m : Dict WaitRecord) (j : String)
    → Entries (λ k w. w.wait_id ≡ k) m
    → Distinct (keys m)
    → any (λ w. q w && w.wait_id == j) (values m) ≡ or_else (option_map q (get j m)) false
unfolding get values
any-values q [] j h u = refl
any-values q ((k, w) ∷ m) j (e, h) (new, u) =
    ground (arith, any-values q m j h u, eq_iff k j, eq_iff w.wait_id j, get-eq-none k m new)

drop_losers-get :
    (race : Option String) (s : RunState) (j : String)
    → WaitsKeyed s.waits
    → get j (drop_losers race s).waits ≡ outside race (get j s.waits)
unfolding drop_losers WaitsKeyed
drop_losers-get none s j h = refl
drop_losers-get (some race) s j h = ground (
  arith,
  drop_race-get race (values s.waits) s j,
  any-values (λ w. is_the (race_id w) race) s.waits j h.0 h.1,
)

wake-waits : (s : RunState) (o : Option String) → (wake s o).waits ≡ s.waits
unfolding wake
wake-waits s none = refl
wake-waits s (some id) = ground arith

-- The race of a wait, if it runs in one that has a name.
abbrev pub race_of : Option WaitRecord → Option String
race_of o = truthy (o >>= λ w. race_id w)

wait_satisfied_step-get :
    (s : RunState) (event : EventEnvelope) (fs : Fields) (w j : String)
    → WaitsKeyed s.waits
    → truthy (read_string fs "waitId") ≡ some w
    → get j (or_else (wait_satisfied_step s event fs) s).waits
      ≡ (if w == j then none else outside (race_of (get w s.waits)) (get j s.waits))
unfolding wait_satisfied_step
wait_satisfied_step-get s event fs w j h e =
    let race = race_of (get w s.waits) in
    rw (e, wake-waits, drop_losers-get race (remove_wait s w) j (WaitsKeyed-remove s.waits w h))
      (ground (arith, get-remove w j s.waits))

module _ (s : RunState) (event : EventEnvelope) where
  record_event-waits : (record_event s event).waits ≡ s.waits
  unfolding record_event complete_effect
  record_event-waits = ground arith

  deliver-waits :
      (registry : Registry) (settled : Option OutstandingEffect)
      → (deliver registry s event settled).waits ≡ s.waits
  unfolding deliver reconcile_effects forget_completed_effects
  deliver-waits registry settled = ground arith

wait_satisfied_case :
    (d : Decoders) (registry : Registry) (s : RunState) (event : EventEnvelope) (w j : String)
    → WaitsKeyed s.waits
    → truthy (read_string (payload_object event.payload) "waitId") ≡ some w
    → get j
        (or_else
          (protocol_case d registry s event (payload_object event.payload) wait_satisfied)
          s).waits
      ≡ (if w == j then none else outside (race_of (get w s.waits)) (get j s.waits))
unfolding protocol_case
wait_satisfied_case d registry s event w j h e =
    wait_satisfied_step-get s event (payload_object event.payload) w j h e

-- After a wait.satisfied event for the wait `w`, that wait is gone, and so is every other wait of its
-- race; every other wait is as it was. This holds of each wait id `j`, in a keyed state.
pub fold_event-waits :
    (d : Decoders) (registry : Registry) (s : RunState) (event : EventEnvelope) (w j : String)
    → IsKeyed s
    → event.ephemeral ≡ false
    → event.type ≡ wait_satisfied
    → truthy (read_string (payload_object event.payload) "waitId") ≡ some w
    → get j (fold_event d registry s event).waits
      ≡ (if w == j then none else outside (race_of (get w s.waits)) (get j s.waits))
fold_event-waits d registry s event w j keyed durable type e =
    rw
      (
        fold_event_durable d registry s event durable,
        fail_unhandled_effect-other (delivered_state d registry s event) event _ (ground arith),
        deliver-waits (protocol_state d registry s event) event registry _,
        apply_protocol-case d registry (record_event s event) event wait_satisfied type,
      )
      (wait_satisfied_case d registry (record_event s event) event w j
          (IsKeyed-record_event s event keyed).waits e
        ∙ rw record_event-waits refl)
