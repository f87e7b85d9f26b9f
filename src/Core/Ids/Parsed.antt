-- ===== src/Core/Ids/Parsed.antt =====
-- packages/core/src/ids.ts: the parts of an effect's id are read back from it.
use Prim.Native.Char.{Char}
use text.Mathlib.TextEquality.{Char-path}
use text.Mathlib.TextLemmas.{nil-append, cons-append}
use looms.Prelude.{
  is_some, subst, ℕ, ◌^◌, ◌<◌, String, none, some, Bool, true, false, List, [], ◌∷◌, ◌<>◌, ◌&&◌,
  ◌≡◌, ◌∙◌, refl, sym, ap, arith, show, Bool-cases, inl, inr,
}
use looms.Prelude.Decimal.{all_digits, show-IsDecimal}
use looms.Core.Ids.{create_effect_id, create_effect_id_at}
use looms.Core.Ids.Deterministic.{join_parts}
use looms.Core.Ids.Parse.{
  tagged, extend, is_colon, split_parts, whole, EffectRef, number, positioned, of_parts,
  parse_effect_id,
}

-- Whether no character of a text is a colon.
unfoldable pub has_no_colon : String → Bool
has_no_colon String.[] = true
has_no_colon (String.◌∷◌ c s) = elim (is_colon c) [ true ↦ false | false ↦ has_no_colon s ]

all_digits-has_no_colon : (s : String) → all_digits s ≡ true → has_no_colon s ≡ true
unfolding all_digits has_no_colon
all_digits-has_no_colon String.[] h = refl
all_digits-has_no_colon (String.◌∷◌ c s) h =
    ground (arith, all_digits-has_no_colon s (ground arith))

split_parts-alone : (s : String) → has_no_colon s ≡ true → split_parts s ≡ s ∷ []
unfolding has_no_colon split_parts extend
split_parts-alone String.[] h = refl
split_parts-alone (String.◌∷◌ c s) h =
    let rest = split_parts-alone s (ground arith) in
    let other' : is_colon c ≡ false = ground arith in rw (other', rest) refl

split_parts-of_colon : (t : String) → split_parts (":" <> t) ≡ "" ∷ split_parts t
unfolding split_parts
split_parts-of_colon t = rw (cons-append ":" "" t, nil-append t) refl

split_parts-colon :
    (s t : String) → has_no_colon s ≡ true → split_parts (s <> ":" <> t) ≡ s ∷ split_parts t
unfolding has_no_colon split_parts extend
split_parts-colon String.[] t h = rw (nil-append (":" <> t)) (split_parts-of_colon t)
split_parts-colon (String.◌∷◌ c s) t h =
    let rest = split_parts-colon s t (ground arith) in
    let other' : is_colon c ≡ false = ground arith in
    rw (cons-append c s (":" <> t), other', rest) refl

join_parts-extend :
    (c : Char) (parts : List String) → join_parts (extend c parts) ≡ String.◌∷◌ c (join_parts parts)
unfolding join_parts extend
join_parts-extend c [] = refl
join_parts-extend c (part ∷ []) = refl
join_parts-extend c (part ∷ more ∷ parts) = cons-append c part (":" <> join_parts (more ∷ parts))

split_parts-nonempty :
    (s : String) → (part : String) × (parts : List String) × (split_parts s ≡ part ∷ parts)
unfolding split_parts extend
split_parts-nonempty String.[] = ("", [], refl)
split_parts-nonempty (String.◌∷◌ c s) = elim (Bool-cases (is_colon c)) [
  | inl here ↦ ("", split_parts s, rw here refl)
  | inr other' ↦
      let (part, parts, e) = split_parts-nonempty s in
      (String.◌∷◌ c part, parts, rw (other', e) refl)
]

-- Splitting at the colons and joining with them gives the text back.
join_parts-split_parts : (s : String) → join_parts (split_parts s) ≡ s
unfolding split_parts join_parts
join_parts-split_parts String.[] = refl
join_parts-split_parts (String.◌∷◌ c s) =
    let (part, parts, e) = split_parts-nonempty s in
    elim (Bool-cases (is_colon c)) [
      | inl here ↦
          let same : c ≡ ":" = Char-path c ":" (ground arith) in
          let joined : join_parts ("" ∷ split_parts s) ≡ "" <> ":" <> join_parts (split_parts s) =
            subst (λ ps. join_parts ("" ∷ ps) ≡ "" <> ":" <> join_parts ps) (sym e) refl in
          rw here (
            joined
            ∙ rw
                (
                  join_parts-split_parts s,
                  nil-append (":" <> s),
                  cons-append ":" "" s,
                  nil-append s,
                  same,
                )
                refl)
      | inr other' ↦ rw (other', join_parts-extend c (split_parts s), join_parts-split_parts s) refl
    ]

module _ (is_other : String → Bool) where
  number-show : (n : ℕ) → n < 2 ^ 53 → number is_other (show n) ≡ some (whole n)
  unfolding number
  number-show n safe = let (reads, digits) = show-IsDecimal n in rw (digits, reads) (ground arith)

  show-has_no_colon : (n : ℕ) → has_no_colon (show n) ≡ true
  show-has_no_colon n = all_digits-has_no_colon (show n) (show-IsDecimal n).1

  -- The parts of an effect's id that is made of a thread's id without a colon, a sequence number and an
  -- index, both safe integers, are read back from it.
  pub parse_effect_id-create_effect_id_at :
      (thread_id : String) (seq index : ℕ)
      → has_no_colon thread_id ≡ true
      → seq < 2 ^ 53
      → index < 2 ^ 53
      → parse_effect_id is_other (create_effect_id_at thread_id seq index)
        ≡ some (record {
          thread_id = thread_id;
          causing_seq = some (whole seq);
          tag = none;
          index = some (whole index);
        })
  unfolding parse_effect_id create_effect_id_at of_parts positioned
  parse_effect_id-create_effect_id_at thread_id seq index clean small less =
      rw
        (
          split_parts-colon thread_id (show seq <> ":" <> show index) clean,
          split_parts-colon (show seq) (show index) (show-has_no_colon seq),
          split_parts-alone (show index) (show-has_no_colon index),
          number-show seq small,
          number-show index less,
        )
        refl

  abbrev tagged_as : String → String → EffectRef
  tagged_as thread_id tag = record {
    thread_id = thread_id;
    causing_seq = none;
    tag = some tag;
    index = none;
  }

  -- Whether a text is two finite numbers around a colon.
  unfoldable pub two_numbers : List String → Bool
  two_numbers (seq ∷ index ∷ []) = is_some (number is_other seq) && is_some (number is_other index)
  two_numbers parts = false

  of_parts-tagged :
      (thread_id part : String) (parts : List String)
      → two_numbers (part ∷ parts) ≡ false
      → of_parts is_other (thread_id ∷ part ∷ parts) ≡ some (tagged thread_id (part ∷ parts))
  unfolding of_parts two_numbers positioned
  of_parts-tagged thread_id part [] h = refl
  of_parts-tagged thread_id seq (index ∷ []) h = ground arith
  of_parts-tagged thread_id part (next ∷ more ∷ parts) h = refl

  -- An effect's id that is made of a thread's id without a colon and a tag is read as one: its parts
  -- are the thread's id and the tag, unless the tag is itself two finite numbers around a colon.
  pub parse_effect_id-create_effect_id :
      (thread_id tag : String)
      → has_no_colon thread_id ≡ true
      → two_numbers (split_parts tag) ≡ false
      → parse_effect_id is_other (create_effect_id thread_id tag)
        ≡ some (record { thread_id = thread_id; causing_seq = none; tag = some tag; index = none })
  unfolding parse_effect_id create_effect_id of_parts positioned
  parse_effect_id-create_effect_id thread_id tag clean plain =
      let (part, parts, e) = split_parts-nonempty tag in
      let whole_tag : join_parts (part ∷ parts) ≡ tag =
        subst (λ ps. join_parts ps ≡ tag) e (join_parts-split_parts tag) in
      let several : two_numbers (part ∷ parts) ≡ false =
        subst (λ ps. two_numbers ps ≡ false) e plain in
      rw (split_parts-colon thread_id tag clean) (
        subst (λ ps. of_parts is_other (thread_id ∷ ps) ≡ some (tagged_as thread_id tag)) (sym e)
          (of_parts-tagged thread_id part parts several
            ∙ ap (λ t. some (tagged_as thread_id t)) whole_tag))
