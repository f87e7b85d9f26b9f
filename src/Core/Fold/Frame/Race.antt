-- ===== src/Core/Fold/Frame/Race.antt =====
-- The loop over the siblings of a race changes the waits alone.
use looms.Prelude.{String, ◌≡◌, refl, List, [], ◌∷◌, arith}
use looms.Core.State.{RunState, WaitRecord}
use looms.Core.Fold.Changes.{remove_wait}
use looms.Core.Fold.Protocol.{drop_race}

pub drop_race-keys :
    (race : String) (siblings : List WaitRecord) (s : RunState)
    → (drop_race race siblings s).processed_idempotency_keys ≡ s.processed_idempotency_keys
unfolding drop_race
drop_race-keys race [] s = refl
drop_race-keys race (w ∷ ws) s =
    ground (arith, drop_race-keys race ws s, drop_race-keys race ws (remove_wait s w.wait_id))

pub drop_race-threads :
    (race : String) (siblings : List WaitRecord) (s : RunState)
    → (drop_race race siblings s).threads ≡ s.threads
unfolding drop_race
drop_race-threads race [] s = refl
drop_race-threads race (w ∷ ws) s =
    ground (arith, drop_race-threads race ws s, drop_race-threads race ws (remove_wait s w.wait_id))

-- Effects, their executions and the launched runs are left alone.
pub drop_race-work :
    (race : String) (siblings : List WaitRecord) (s : RunState)
    → ((drop_race race siblings s).outstanding_effects ≡ s.outstanding_effects)
      × ((drop_race race siblings s).completed_effect_ids ≡ s.completed_effect_ids)
      × ((drop_race race siblings s).effect_executions ≡ s.effect_executions)
      × ((drop_race race siblings s).launched_runs ≡ s.launched_runs)
unfolding drop_race
drop_race-work race [] s = (refl, refl, refl, refl)
drop_race-work race (w ∷ ws) s =
    ground (arith, drop_race-work race ws s, drop_race-work race ws (remove_wait s w.wait_id))
