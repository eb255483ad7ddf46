-- ===== src/Processor/Pipeline/Overtaking.antt =====
-- Two workers do not keep the order of the partition.
use trade_pulse.Prelude.{ℕ, suc, ◌≡◌, refl, List, [], ◌∷◌, Option, some, arith, ltb, true}
use trade_pulse.Prelude.Int.{pos}
use trade_pulse.Machine.{Float64}
use trade_pulse.Text.{Text}
use trade_pulse.Channel.{sent, make, send, receive}
use trade_pulse.Domain.{TradeEvent}
use trade_pulse.Processor.Enricher.{Provider, enrich}
use trade_pulse.Processor.Consumer.{Record}
use trade_pulse.Processor.FanOut.{
  Sink, order_book, redis_writer, broadcast, accept, chan, publish, publish_step, new_fan_out,
  size_or,
}
use trade_pulse.Processor.Pool.{new_worker_pool, submit, take}
use trade_pulse.Processor.Pipeline.{
  Action, polls, visits, submits, takes, publishes, new_processor, step, run,
}

-- Two records are taken by two workers, and the second worker is faster.
abbrev pub overtaking : Record → Record → Sink → List Action
overtaking first second k =
    polls (first ∷ second ∷ [])
    ∷ visits
    ∷ submits
    ∷ visits
    ∷ submits
    ∷ takes 0
    ∷ takes 1
    ∷ publishes 1 (accept k)
    ∷ publishes 0 (accept k)
    ∷ []

pub room : (n : ℕ) → ltb 0 (suc (suc n)) ≡ true
room n = ground arith

pub room_for_two : (n : ℕ) → ltb 1 (suc (suc n)) ≡ true
room_for_two n = ground arith

module _ (mul : Float64 → Float64 → Float64) (metadata : Provider)
    (decode : Text → Option TradeEvent) where
  -- With two workers and two slots in each sink, or more, and for any two records that decode and any sink, there is a run in which
  -- the records are marked in their order and the sink is sent their trades in the opposite order: the
  -- sink ends with the older one.
  pub overtaken :
      (workers slots : ℕ) (first second : Record) (e₁ e₂ : TradeEvent) (k : Sink)
      → decode first.value ≡ some e₁
      → decode second.value ≡ some e₂
      → let s =
          run mul metadata decode
            (overtaking first second k)
            (new_processor (pos (suc (suc workers))) (pos (suc (suc slots)))) in
        (s.marked ≡ first ∷ second ∷ [])
        × (sent (chan k s.fan) ≡ enrich mul metadata e₂ ∷ enrich mul metadata e₁ ∷ [])
  unfolding run step new_processor new_worker_pool submit take send receive make publish
      publish_step new_fan_out size_or sent
  overtaken workers slots first second e₁ e₂ order_book p q =
      rw (p, room workers, q, room_for_two workers, room slots, room_for_two slots) (refl, refl)
  overtaken workers slots first second e₁ e₂ redis_writer p q =
      rw (p, room workers, q, room_for_two workers, room slots, room_for_two slots) (refl, refl)
  overtaken workers slots first second e₁ e₂ broadcast p q =
      rw (p, room workers, q, room_for_two workers, room slots, room_for_two slots) (refl, refl)
