-- ===== src/Core/Coalesce/Key.antt =====
-- packages/core/src/coalesce.ts: the buffer of one key and the fibers that flush it. Every operation but
-- `clear` and `size` touches the entry of one key only. A `KeyState` is an object that a fiber holds on to,
-- so it carries its identity. The deferreds, which only say when a waiting call goes on, are left out.
use looms.Prelude.{
  ℕ, suc, ◌-◌, Option, none, some, Bool, true, false, List, [], ◌∷◌, ◌++◌, if◌then◌else◌, ◌&&◌,
  ◌||◌, not, eqb, ltb, length, is_some,
}

module _ (A E : Type 0) where
  pub record KeyState : Type 0 where
    pub id : ℕ
    pub buffer : List A
    pub flushing : Bool
    pub scheduled : Bool
    pub poison : Option E

  -- A batch that is being flushed, and the state that it was taken from.
  pub record Flight : Type 0 where
    pub state_id : ℕ
    pub batch : List A

  -- `entry` is the key's entry of the map. `starting` fibers are about to take a batch, `flights` wait for
  -- their flush, and `ending` ones found nothing to take. `flushed` has the batches that the flush function
  -- accepted, and `pushed` the events that `push` accepted.
  pub record Key : Type 0 where
    pub entry : Option KeyState
    pub starting : ℕ
    pub flights : List Flight
    pub ending : List ℕ
    pub next_id : ℕ
    pub flushed : List (List A)
    pub pushed : List A

  pub data Push : Type 0 where
    poisoned : E → Push
    enqueued : (waits : Bool) → Push

abbrev pub non_empty_buffer : {A : Type 0} → List A → Bool
non_empty_buffer [] = false
non_empty_buffer (_ ∷ _) = true

module _ {A E : Type 0} where
  abbrev pub idle_key : Key A E
  idle_key = record {
    entry = none;
    starting = 0;
    flights = [];
    ending = [];
    next_id = 0;
    flushed = [];
    pushed = [];
  }

  -- `createState`
  abbrev pub create_state : ℕ → KeyState A E
  create_state id = record {
    id = id;
    buffer = [];
    flushing = false;
    scheduled = false;
    poison = none;
  }

  -- Whether the entry is the state that a fiber holds: `stillCurrent`.
  abbrev pub still_current : Option (KeyState A E) → ℕ → Bool
  still_current none id = false
  still_current (some s) id = eqb s.id id

  -- `push` on a state: `enqueue`, the scheduling, and whether it waits, above `maxPending`.
  abbrev pub is_idle : KeyState A E → Bool
  is_idle s = not s.flushing && not s.scheduled

  abbrev pub with_event : KeyState A E → A → KeyState A E
  with_event s event = record s {
    buffer = s.buffer ++ event ∷ [];
    scheduled = s.scheduled || is_idle s;
  }

  abbrev pub enqueue : ℕ → KeyState A E → A → Key A E → Push A E × Key A E
  enqueue max_pending s event k = (
    enqueued (ltb max_pending (length (s.buffer ++ event ∷ []))),
    record k {
      entry = some (with_event s event);
      starting = if is_idle s then suc k.starting else k.starting;
      pushed = k.pushed ++ event ∷ [];
    },
  )

  abbrev pub push_on : ℕ → KeyState A E → Option E → A → Key A E → Push A E × Key A E
  push_on max_pending s (some cause) event k = (poisoned cause, k)
  push_on max_pending s none event k = enqueue max_pending s event k

  abbrev pub push_entry : ℕ → Option (KeyState A E) → A → Key A E → Push A E × Key A E
  push_entry max_pending (some s) event k = push_on max_pending s s.poison event k
  push_entry max_pending none event k =
      enqueue max_pending (create_state k.next_id) event (record k { next_id = suc k.next_id })

  -- `push`
  unfoldable pub push : ℕ → Key A E → A → Push A E × Key A E
  push max_pending k event = push_entry max_pending k.entry event k

  -- `take`, by a fiber that starts a round: the entry is gone, idle, or gives its buffer.
  abbrev pub take_buffer : KeyState A E → List A → Key A E → Key A E
  take_buffer s [] k = record k {
    entry = some (record s { flushing = false; scheduled = false });
    ending = k.ending ++ s.id ∷ [];
  }
  take_buffer s (event ∷ events) k = record k {
    entry = some (record s { buffer = []; flushing = true; scheduled = false });
    flights = k.flights ++ record { state_id = s.id; batch = event ∷ events } ∷ [];
  }

  abbrev pub take_entry : Option (KeyState A E) → Key A E → Key A E
  take_entry none k = k
  take_entry (some s) k = take_buffer s s.buffer k

  -- One fiber leaves `starting` for a round of `runFlush`.
  unfoldable pub take_batch : Key A E → Key A E
  take_batch k = take_entry k.entry (record k { starting = k.starting - 1 })

  -- A flush succeeded: the fiber goes on with another round, unless its state is not the entry.
  unfoldable pub flush_succeeded :
      List (Flight A E) → Flight A E → List (Flight A E) → Key A E → Key A E
  flush_succeeded before flight after k =
      let landed = record k {
        flights = before ++ after;
        flushed = k.flushed ++ flight.batch ∷ [];
      } in
      if still_current k.entry flight.state_id
      then record landed { starting = suc k.starting }
      else landed

  abbrev pub poison_entry : Option (KeyState A E) → E → Option (KeyState A E)
  poison_entry none cause = none
  poison_entry (some s) cause =
      some (record s { poison = some cause; buffer = []; flushing = false; scheduled = false })

  -- A flush failed: the state is poisoned, if it is the entry.
  unfoldable pub flush_failed :
      List (Flight A E) → Flight A E → List (Flight A E) → E → Key A E → Key A E
  flush_failed before flight after cause k =
      let landed = record k { flights = before ++ after } in
      if still_current k.entry flight.state_id
      then record landed { entry = poison_entry k.entry cause }
      else landed

  -- `evictIfIdle`
  abbrev pub evict_if_idle : Option (KeyState A E) → Option (KeyState A E)
  evict_if_idle none = none
  evict_if_idle (some s) =
      if non_empty_buffer s.buffer || s.flushing || s.scheduled || is_some s.poison
      then some s
      else none

  -- The end of a fiber that found its state idle.
  unfoldable pub finish : List ℕ → ℕ → List ℕ → Key A E → Key A E
  finish before id after k = record k { ending = before ++ after; entry = evict_if_idle k.entry }

  -- `clear`
  unfoldable pub clear : Key A E → Key A E
  clear k = record k { entry = none }

  -- `drain` waits no longer.
  unfoldable pub drained : Option (KeyState A E) → Bool
  drained none = true
  drained (some s) =
      is_some s.poison || not (non_empty_buffer s.buffer) && not s.flushing && not s.scheduled
