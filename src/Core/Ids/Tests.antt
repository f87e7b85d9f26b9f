-- ===== src/Core/Ids/Tests.antt =====
-- packages/core/src/ids.ts: tests and examples.
use looms.Prelude.{String, none, some, Bool, false, [], ◌∷◌, ◌≡◌, refl, arith}
use looms.Core.Ids.{create_effect_id, create_effect_id_at}
use looms.Core.Ids.Deterministic.{deterministic_thread_id, deterministic_run_id}
use looms.Core.Ids.Parse.{split_parts, whole, parse_effect_id}
use looms.Core.Ids.Parsed.{
  has_no_colon, two_numbers, parse_effect_id-create_effect_id_at, parse_effect_id-create_effect_id,
}

deterministic_child :
    deterministic_thread_id ("t1" ∷ "each" ∷ "map" ∷ "1" ∷ "0" ∷ [])
    ≡ "ff26ce42-2cf1-58d6-bb63-35e8334e5aba"
unfolding deterministic_thread_id
deterministic_child = refl

deterministic_child_run :
    deterministic_run_id ("r1" ∷ "ff26ce42-2cf1-58d6-bb63-35e8334e5aba" ∷ [])
    ≡ "run_7f0edf03dc0b5f4788255f8586c6ae73"
unfolding deterministic_run_id
deterministic_child_run = refl

-- No other text is read as a number.
abbrev no_other : String → Bool
no_other text = false

parse_effect_id-create_effect_id_at_example :
    parse_effect_id no_other (create_effect_id_at "thr_1" 12 3)
    ≡ some (record {
      thread_id = "thr_1";
      causing_seq = some (whole 12);
      tag = none;
      index = some (whole 3);
    })
unfolding has_no_colon
parse_effect_id-create_effect_id_at_example =
    parse_effect_id-create_effect_id_at no_other "thr_1" 12 3 refl (omega arith) (omega arith)

parse_effect_id-create_effect_id_example :
    parse_effect_id no_other (create_effect_id "thr_1" "scan:report:2")
    ≡ some (record {
      thread_id = "thr_1";
      causing_seq = none;
      tag = some "scan:report:2";
      index = none;
    })
unfolding has_no_colon two_numbers split_parts
parse_effect_id-create_effect_id_example =
    parse_effect_id-create_effect_id no_other "thr_1" "scan:report:2" refl refl
