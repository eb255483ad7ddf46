-- ===== src/Ingestion/Worker/Stream.antt =====
-- Which messages of a stream reach Kafka.
use trade_pulse.Prelude.{
  ℕ, suc, ◌≡◌, refl, sym, ap, ◌∙◌, ◌++◌, true, false, List, [], ◌∷◌, Option, none, some, arith,
}
use mathlib.Core.List.{append_assoc, append-nil}
use trade_pulse.Prelude.Int.{pos}
use trade_pulse.Text.{Text, codes, text_eq, is_empty}
use trade_pulse.Machine.{Float64, Time, is_finite, float_le_zero, is_nan}
use trade_pulse.Json.{Codec}
use trade_pulse.Domain.{TradeEvent}
use trade_pulse.Domain.Json.{marshal_trade}
use trade_pulse.Ingestion.Normalizer.{
  BinanceTradeMessage, Normalized, accepted, rejected, normalize_trade, normalize_message,
  not_le_zero, event_of,
}
use trade_pulse.Ingestion.Publisher.{Publisher, Produced, publish, record_of}
use trade_pulse.Ingestion.Worker.{forward, keep_old, read_loop}

nan_not_finite : (x : Float64) → is_nan x ≡ true → is_finite x ≡ false
unfolding is_nan is_finite
nan_not_finite x h = ground arith

nan_not_le_zero : (x : Float64) → is_nan x ≡ true → not_le_zero (some x) ≡ some x
unfolding not_le_zero float_le_zero
nan_not_le_zero x h = ground arith

passes : (q : Float64) → float_le_zero q ≡ false → not_le_zero (some q) ≡ some q
unfolding not_le_zero
passes q h = rw h refl

module _ (c : Codec) (parse : Text → Option Float64) where
  abbrev encoded : TradeEvent → Option Text → List Produced
  encoded event none = []
  encoded event (some payload) = record_of event payload ∷ []

  -- What one message contributes.
  abbrev pub records_of : Normalized → List Produced
  records_of (rejected e) = []
  records_of (accepted event) = encoded event (marshal_trade c event)

  abbrev pub stream_records : List (Text × Time) → List Produced
  stream_records [] = []
  stream_records ((raw, now) ∷ messages) =
      records_of (normalize_trade c parse raw now) ++ stream_records messages

  keep_old-produced :
      (event : TradeEvent) (p : Publisher) (m : Option Text)
      → marshal_trade c event ≡ m
      → (keep_old p (publish c event p)).produced ≡ p.produced ++ encoded event m
  unfolding publish
  keep_old-produced event p none e = rw e (sym (append-nil p.produced))
  keep_old-produced event p (some payload) e = rw e refl

  pub forward-produced :
      (n : Normalized) (p : Publisher) → (forward c n p).produced ≡ p.produced ++ records_of n
  forward-produced (rejected e) p = sym (append-nil p.produced)
  forward-produced (accepted event) p = keep_old-produced event p (marshal_trade c event) refl

  -- What a session hands to Kafka is one record for each message that is normalized and marshalled, in
  -- the order of the stream, keyed by its symbol; a message that is not is dropped alone.
  pub read_loop-produced :
      (messages : List (Text × Time)) (p : Publisher)
      → (read_loop c parse messages p).produced ≡ p.produced ++ stream_records messages
  unfolding read_loop
  read_loop-produced [] p = sym (append-nil p.produced)
  read_loop-produced ((raw, now) ∷ messages) p =
      let n = normalize_trade c parse raw now in
      read_loop-produced messages (forward c n p)
      ∙ ap (λ l. l ++ stream_records messages) (forward-produced n p)
      ∙ append_assoc p.produced (records_of n) (stream_records messages)

-- A trade message with a symbol, a positive quantity and a positive time, whose price parses as
-- NaN, is not rejected by the test `price <= 0`: it becomes a trade, and the JSON encoding of that
-- fails.
pub nan_price_passes :
    (c : Codec) (parse : Text → Option Float64) (m : BinanceTradeMessage) (now : Time)
    (x q : Float64) (ms : ℕ)
    → text_eq m.event_type (codes "trade") ≡ true
    → is_empty m.symbol ≡ false
    → parse m.price ≡ some x
    → is_nan x ≡ true
    → parse m.quantity ≡ some q
    → float_le_zero q ≡ false
    → m.trade_time ≡ pos (suc ms)
    → (event : TradeEvent) × (normalize_message parse m now ≡ accepted event)
      × (event.price ≡ x)
      × (marshal_trade c event ≡ none)
unfolding normalize_message marshal_trade
nan_price_passes c parse m now x q ms kind named price nan quantity positive at = (
  event_of m x q now (suc ms),
  rw (kind, named, price, nan_not_le_zero x nan, quantity, passes q positive, at) refl,
  refl,
  rw (nan_not_finite x nan) refl,
)
