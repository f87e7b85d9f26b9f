-- ===== src/Core/Ids/Parse.antt =====
-- packages/core/src/ids.ts: `parseEffectId`. `Number` of a text that is not made of digits alone, or is past
-- the safe integers, may be another finite number: a test of such texts is an argument.
use Prim.Native.Char.{Char, code}
use looms.Prelude.{
  ℕ, ◌-◌, ◌^◌, String, Option, none, some, Bool, List, [], ◌∷◌, ◌&&◌, eqb, leb, if◌then◌else◌,
}
use looms.Prelude.Decimal.{value_from, all_digits}
use looms.Core.Ids.Deterministic.{join_parts}

-- A character at the front of the first part.
unfoldable pub extend : Char → List String → List String
extend c [] = String.◌∷◌ c "" ∷ []
extend c (part ∷ parts) = String.◌∷◌ c part ∷ parts

abbrev pub is_colon : Char → Bool
is_colon c = eqb (code c) 58

-- `id.split(':')`
unfoldable pub split_parts : String → List String
unfolding extend
split_parts String.[] = "" ∷ []
split_parts (String.◌∷◌ c s) =
    let rest = split_parts s in if is_colon c then "" ∷ rest else extend c rest

-- A finite number that a text stands for: a natural number, or what else the text says.
pub data Numeric : Type 0 where
  whole : ℕ → Numeric
  other : String → Numeric

pub record EffectRef : Type 0 where
  pub thread_id : String
  pub causing_seq : Option Numeric
  pub tag : Option String
  pub index : Option Numeric

abbrev pub tagged : String → List String → EffectRef
tagged thread_id parts = record {
  thread_id = thread_id;
  causing_seq = none;
  tag = some (join_parts parts);
  index = none;
}

unfoldable pub positioned : EffectRef → Option Numeric → Option Numeric → EffectRef
positioned fallback (some seq) (some index) = record fallback {
  causing_seq = some seq;
  tag = none;
  index = some index;
}
positioned fallback _ _ = fallback

module _ (is_other : String → Bool) where
  -- `Number(text)`, if it is finite
  unfoldable pub number : String → Option Numeric
  unfolding value_from all_digits
  number text =
      if all_digits text && leb (value_from 0 text) (2 ^ 53 - 1)
      then some (whole (value_from 0 text))
      else if is_other text
      then some (other text)
      else none

  unfoldable pub of_parts : List String → Option EffectRef
  unfolding join_parts number positioned
  of_parts [] = none
  of_parts (thread_id ∷ []) = none
  of_parts (thread_id ∷ seq ∷ index ∷ []) =
      some (positioned (tagged thread_id (seq ∷ index ∷ [])) (number seq) (number index))
  of_parts (thread_id ∷ part ∷ parts) = some (tagged thread_id (part ∷ parts))

  -- `parseEffectId`
  unfoldable pub parse_effect_id : String → Option EffectRef
  unfolding split_parts of_parts
  parse_effect_id effect_id = of_parts (split_parts effect_id)
