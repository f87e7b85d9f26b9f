-- ===== src/Core/Effects.antt =====
-- packages/core/src/effects.ts: what a thread asks the host to do.
use looms.Prelude.{ℕ, String, Option, Bool, List, starts_with}
use looms.Core.Json.{Json}
use looms.Core.Envelope.{EventInput}

pub data WaitCondition : Type 0 where
  on_type : String → Option Json → WaitCondition
  on_types : List String → Option Json → WaitCondition
  on_timer : ℕ → WaitCondition

-- What a closing run does with a child that it launched (launcher.ts).
pub data ChildClose : Type 0 where
  terminate wait_for : ChildClose

pub data RuntimeEffect : Type 0 where
  spawn : (child_thread_id kind name version : String) (input : Json) → RuntimeEffect
  wait : (wait_id : String) (on : WaitCondition) (tag : Option Json) → RuntimeEffect
  emit : (event : EventInput) (tag : Option String) → RuntimeEffect
  complete : (output : Json) → RuntimeEffect
  fail : (error : String) → RuntimeEffect
  cancel : (thread_id : String) (tag : Option String) → RuntimeEffect
  launch :
      (run_id kind name version : String) (input : Json) (close : ChildClose) (tag : Option String)
      → RuntimeEffect
  cancel_run : (run_id : String) (tag : Option String) → RuntimeEffect
  invoke : (type : String) (input : Json) (tag : Option String) (at : Option ℕ) → RuntimeEffect

unfoldable pub effect_type : RuntimeEffect → String
effect_type (spawn _ _ _ _ _) = "runtime.spawn"
effect_type (wait _ _ _) = "runtime.wait"
effect_type (emit _ _) = "runtime.emit"
effect_type (complete _) = "runtime.complete"
effect_type (fail _) = "runtime.fail"
effect_type (cancel _ _) = "runtime.cancel"
effect_type (launch _ _ _ _ _ _ _) = "runtime.launch"
effect_type (cancel_run _ _) = "runtime.cancelRun"
effect_type (invoke type _ _ _) = type

abbrev pub withdrawn_error_prefix : String
withdrawn_error_prefix = "withdrawn:"

unfoldable pub is_withdrawn_error : String → Bool
is_withdrawn_error error = starts_with error withdrawn_error_prefix
