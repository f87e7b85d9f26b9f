-- ===== src/Core/Ids.antt =====
-- packages/core/src/ids.ts: ids that name an effect.
pub mod Deterministic
pub mod Parse
pub mod Parsed
mod Tests
use looms.Prelude.{ℕ, String, ◌<>◌, show}

-- `createEffectId(threadId, tag)`
unfoldable pub create_effect_id : String → String → String
create_effect_id thread_id tag = thread_id <> ":" <> tag

-- `createEffectId(threadId, seq, index)`
unfoldable pub create_effect_id_at : String → ℕ → ℕ → String
unfolding show
create_effect_id_at thread_id seq index = thread_id <> ":" <> show seq <> ":" <> show index

-- `createWaitId(scope, tag)`
unfoldable pub create_wait_id : String → String → String
create_wait_id scope tag = "wait_" <> scope <> "_" <> tag
