-- ===== src/Core/Match/Tests.antt =====
-- Waits that an event matches, and the theorem there.
use looms.Prelude.{some, true, ◌≡◌, refl}
use looms.Core.Json.{Json, arr, nil, cons, null, num, obj, field, end}
use looms.Core.Envelope.{EventEnvelope, signal_received}
use looms.Core.Effects.{on_type}
use looms.Core.Fold.Tests.Data.{event_of}
use looms.Core.Match.{is_subset, matches_wait}

abbrev order_pattern : Json
order_pattern = obj (field "order" (num 7) end)

abbrev page_pattern : Json
page_pattern =
    obj (field "pages" (arr (cons (num 1) (cons (num 2) nil))) (field "order" (num 7) end))

abbrev order_signal : EventEnvelope
order_signal = event_of 1 signal_received (
    field "order" (num 7)
      (field "pages" (arr (cons (num 1) (cons (num 2) nil))) (field "to" null end)))

looser : is_subset order_pattern page_pattern ≡ true
unfolding is_subset
looser = refl

matched : matches_wait order_signal (on_type "runtime.signal.received" (some page_pattern)) ≡ true
unfolding matches_wait
matched = refl
