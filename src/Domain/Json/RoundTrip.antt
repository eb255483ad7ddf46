-- ===== src/Domain/Json/RoundTrip.antt =====
-- What is marshalled is read back.
use trade_pulse.Prelude.{
  ◌≡◌, refl, sym, ap, ◌∙◌, inl, inr, true, false, [], ◌∷◌, Option, some, Bool-cases,
}
use trade_pulse.Text.{Text, text_eq}
use trade_pulse.Machine.{float_zero, is_finite, float_is_zero, IsInt64}
use trade_pulse.Domain.{MarketMetadata, TradeEvent, zero_trade, zero_market}
use trade_pulse.Json.{Fields, Codec, IsCodec, ◌>>=◌, is_json_time, decode_fields, decode_struct}
use trade_pulse.Domain.Json.{
  market_keys, trade_keys, market_fields, assign_market, assign_trade, after_market, after_trade_id,
  trade_json, marshal_trade, unmarshal_trade,
}

-- What Marshal accepts, and what `omitempty` leaves readable: a Notional of minus zero is left out,
-- and reads back as zero.
pub record IsPrintable (e : TradeEvent) : Type 0 where
  pub price : is_finite e.price ≡ true
  pub quantity : is_finite e.quantity ≡ true
  pub notional : is_finite e.notional ≡ true
  pub notional_zero : float_is_zero e.notional ≡ true → e.notional ≡ float_zero
  pub trade_id : IsInt64 e.trade_id
  pub event_time : is_json_time e.event_time ≡ true
  pub ingest_time : is_json_time e.ingest_time ≡ true

module _ (c : Codec) where
  market_of : Text → Text → Text → MarketMetadata
  market_of base quote exchange = record {
    base_asset = base;
    quote_asset = quote;
    exchange = exchange;
  }

  market_read :
      (base quote exchange : Text)
      → decode_fields market_keys
          (assign_market c)
          (market_fields (market_of base quote exchange))
          zero_market
        ≡ some (market_of base quote exchange)
  unfolding decode_fields text_eq assign_market market_fields market_of
  market_read [] [] [] = refl
  market_read [] [] (z ∷ zs) = refl
  market_read [] (y ∷ ys) [] = refl
  market_read [] (y ∷ ys) (z ∷ zs) = refl
  market_read (x ∷ xs) [] [] = refl
  market_read (x ∷ xs) [] (z ∷ zs) = refl
  market_read (x ∷ xs) (y ∷ ys) [] = refl
  market_read (x ∷ xs) (y ∷ ys) (z ∷ zs) = refl

module _ (c : Codec) (laws : IsCodec c) where
  abbrev read_fields : Fields → TradeEvent → Option TradeEvent
  read_fields = decode_fields trade_keys (assign_trade c)

  after_market_read :
      (e : TradeEvent)
      → IsPrintable e
      → read_fields
          (after_market c e)
          (record e { is_whale = false; event_time = 0; ingest_time = 0 })
        ≡ some e
  unfolding decode_fields text_eq assign_trade after_market
  after_market_read e h = elim (Bool-cases e.is_whale) [
    | inl w ↦ rw (
      w,
      laws.parse-format_time e.event_time h.event_time,
      laws.parse-format_time e.ingest_time h.ingest_time,
    )
    | inr w ↦ rw (
      w,
      laws.parse-format_time e.event_time h.event_time,
      laws.parse-format_time e.ingest_time h.ingest_time,
    )
  ]

  market_read_of :
      (m : MarketMetadata)
      → decode_fields market_keys (assign_market c) (market_fields m) zero_market ≡ some m
  unfolding market_of
  market_read_of m = market_read c m.base_asset m.quote_asset m.exchange

  after_trade_id_read :
      (e : TradeEvent)
      → IsPrintable e
      → read_fields (after_trade_id c e) (record e {
        notional = float_zero;
        market = zero_market;
        is_whale = false;
        event_time = 0;
        ingest_time = 0;
      })
        ≡ some e
  unfolding decode_fields text_eq assign_trade after_trade_id
  after_trade_id_read e h = elim (Bool-cases (float_is_zero e.notional)) [
    | inl z ↦
        rw (z, market_read_of e.market)
          (ap
              (λ x.
                read_fields (after_market c e)
                  (record e { notional = x; is_whale = false; event_time = 0; ingest_time = 0 }))
              (sym (h.notional_zero z))
            ∙ after_market_read e h)
    | inr z ↦
        rw (z, laws.parse-format_float e.notional h.notional, market_read_of e.market)
          (after_market_read e h)
  ]

  trade_json_read :
      (e : TradeEvent)
      → IsPrintable e
      → decode_struct trade_keys (assign_trade c) (trade_json c e) zero_trade ≡ some e
  unfolding decode_fields text_eq assign_trade trade_json
  trade_json_read e h =
      rw
        (
          laws.parse-format_float e.price h.price,
          laws.parse-format_float e.quantity h.quantity,
          laws.parse-format_int e.trade_id h.trade_id,
        )
        (after_trade_id_read e h)

  pub marshal_accepts :
      (e : TradeEvent) → IsPrintable e → marshal_trade c e ≡ some (c.print (trade_json c e))
  unfolding marshal_trade
  marshal_accepts e h = rw (h.price, h.quantity, h.notional, h.event_time, h.ingest_time)

  unmarshal_print :
      (e : TradeEvent) → IsPrintable e → unmarshal_trade c (c.print (trade_json c e)) ≡ some e
  unfolding unmarshal_trade
  unmarshal_print e h = rw (laws.parse-print (trade_json c e)) (trade_json_read e h)

  -- A trade whose numbers are finite and whose times are before year 10000 is marshalled, and
  -- unmarshalling the text gives back every field. (The Notional is not minus zero, and the codec
  -- reads back what it prints.)
  pub unmarshal-marshal_trade :
      (e : TradeEvent) → IsPrintable e → (marshal_trade c e >>= unmarshal_trade c) ≡ some e
  unmarshal-marshal_trade e h = rw (marshal_accepts e h) (unmarshal_print e h)
