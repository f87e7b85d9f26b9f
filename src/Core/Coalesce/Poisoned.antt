-- ===== src/Core/Coalesce/Poisoned.antt =====
-- packages/core/src/coalesce.ts: a failed flush ends a key.
use looms.Prelude.{
  ℕ, Option, none, some, Bool, true, false, [], ◌≡◌, refl, arith, sym, ap, ◌∙◌, is_some, subst,
  if◌then◌else◌, ◌||◌,
}
use looms.Core.Coalesce.Key.{
  poisoned, Key, KeyState, non_empty_buffer, push, push_on, push_entry, poisoned, finish,
  evict_if_idle,
}
use looms.Core.Coalesce.Steps.{Step, pushes, takes, succeeds, fails, finishes, Steps, stay, next}
use looms.Core.Coalesce.Sound.{SoundState, SoundEntry, IsCoherent, cons-ne-nil}
use looms.Core.Coalesce.Coherent.{Steps-IsCoherent}

is_some-poisoned :
    {E : Type 0} (b : Bool) (p : Option E) (cause : E) → p ≡ some cause → (b || is_some p) ≡ true
is_some-poisoned b none cause e = cc
is_some-poisoned true (some other) cause e = refl
is_some-poisoned false (some other) cause e = refl

module _ {A E : Type 0} where
  poisoned-idle :
      (s : KeyState A E) (p : Option E) (cause : E) (k : Key A E)
      → p ≡ some cause
      → SoundState s p k
      → (k.starting ≡ 0) × (k.flights ≡ [])
  poisoned-idle s (some other) cause k e (a, b, c, d, quiet, lost) = (d, quiet)
  poisoned-idle s none cause k e h = cc

  push_on-poisoned :
      (max_pending : ℕ) (s : KeyState A E) (p : Option E) (cause : E) (event : A) (k : Key A E)
      → p ≡ some cause
      → push_on max_pending s p event k ≡ (poisoned cause, k)
  push_on-poisoned max_pending s none cause event k e = cc
  push_on-poisoned max_pending s (some other) cause event k e = cc

  push_poisoned :
      (max_pending : ℕ) (s : KeyState A E) (cause : E) (event : A) (k : Key A E)
      → k.entry ≡ some s
      → s.poison ≡ some cause
      → push max_pending k event ≡ (poisoned cause, k)
  unfolding push
  push_poisoned max_pending s cause event k held e =
      ap (λ entry. push_entry max_pending entry event k) held
      ∙ push_on-poisoned max_pending s s.poison cause event k e

  Step-poisoned :
      {max_pending : ℕ} {k l : Key A E} (s : KeyState A E) (cause : E)
      → Step max_pending k l
      → IsCoherent k
      → k.entry ≡ some s
      → s.poison ≡ some cause
      → l.entry ≡ some s
  Step-poisoned {max_pending} s cause (pushes k event) h held e =
      ap (λ result. result.1.entry) (push_poisoned max_pending s cause event k held e) ∙ held
  Step-poisoned s cause (takes k busy) h held e =
      let (none_else, quiet) =
        poisoned-idle s s.poison cause k e (subst (λ entry. SoundEntry entry k) held h) in
      absurd (omega arith)
  Step-poisoned s cause (succeeds k before flight after same) h held e =
      let (none_else, quiet) =
        poisoned-idle s s.poison cause k e (subst (λ entry. SoundEntry entry k) held h) in
      absurd (cons-ne-nil before flight after (sym same ∙ quiet))
  Step-poisoned s cause (fails k before flight after c same) h held e =
      let (none_else, quiet) =
        poisoned-idle s s.poison cause k e (subst (λ entry. SoundEntry entry k) held h) in
      absurd (cons-ne-nil before flight after (sym same ∙ quiet))
  Step-poisoned s cause (finishes k before id after same) h held e =
      unfold finish in
      (ap evict_if_idle held
        ∙ ap (λ b. if b then some s else none)
            (is_some-poisoned (non_empty_buffer s.buffer || s.flushing || s.scheduled) s.poison
              cause e))

  Steps-poisoned :
      {max_pending : ℕ} {k l : Key A E} (s : KeyState A E) (cause : E)
      → Steps max_pending k l
      → IsCoherent k
      → k.entry ≡ some s
      → s.poison ≡ some cause
      → l.entry ≡ some s
  Steps-poisoned s cause (stay k) h held e = held
  Steps-poisoned s cause (next before last) h held e =
      Step-poisoned s cause last (Steps-IsCoherent before h)
        (Steps-poisoned s cause before h held e) e

  -- On a coherent key that a failed flush has poisoned, every later push, after any pushes and steps of
  -- flushing fibers, fails with that failure and changes nothing.
  pub push-poisoned :
      {max_pending : ℕ} {k l : Key A E} (s : KeyState A E) (cause : E) (event : A)
      → IsCoherent k
      → k.entry ≡ some s
      → s.poison ≡ some cause
      → Steps max_pending k l
      → push max_pending l event ≡ (poisoned cause, l)
  push-poisoned {max_pending} {l = l} s cause event h held e steps =
      push_poisoned max_pending s cause event l (Steps-poisoned s cause steps h held e) e
