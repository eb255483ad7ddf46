-- ===== src/Scenarios/Pipeline.antt =====
-- The pipeline of processor-service: a trade on its way from Kafka to the sinks, and shutdowns.
use trade_pulse.Prelude.{◌≡◌, refl, ◌++◌, map, Bool, true, List, [], ◌∷◌}
use trade_pulse.Prelude.Counting.{count}
use trade_pulse.Prelude.Int.{pos}
use trade_pulse.Channel.{sent, send, receive, make}
use trade_pulse.Domain.{TradeEvent}
use trade_pulse.Processor.Enricher.{default_provider, enrich}
use trade_pulse.Processor.FanOut.{
  Sink, order_book, redis_writer, broadcast, accept, chan, publish, publish_step, new_fan_out,
  size_or,
}
use trade_pulse.Processor.Pool.{submit, take, stop, new_worker_pool, default_pool_size}
use trade_pulse.Processor.Pipeline.{
  Action, polls, visits, submits, takes, publishes, stops, receives, cancels, new_processor, step,
  run,
}
use trade_pulse.Processor.Pipeline.Accounts.{trades_of}
use trade_pulse.Processor.Pipeline.Accounts.Totals.{
  IsConserved, run-IsConserved, drained_delivers_marked,
}
use trade_pulse.Processor.Pipeline.Shutdown.{marked_never_published, handed_over}
use trade_pulse.Processor.Pipeline.Fifo.Prefix.{one_worker_prefix, one_worker_in_order}
use trade_pulse.Scenarios.Data.{second_record, mul, buy, decode, first_record, bad_record}

-- A record that does not decode and one that does, worked to the end.
abbrev to_the_end : List Action
to_the_end =
    polls (bad_record ∷ first_record ∷ [])
    ∷ visits
    ∷ visits
    ∷ submits
    ∷ takes 0
    ∷ publishes 0 (accept redis_writer)
    ∷ publishes 0 (accept order_book)
    ∷ publishes 0 (accept broadcast)
    ∷ receives order_book
    ∷ []

abbrev any : TradeEvent → Bool
any event = true

drained_delivers_marked_example :
    count any (
      sent (
        chan redis_writer
          (run mul default_provider decode to_the_end (new_processor (pos 1) (pos 4))).fan))
    ≡ count
        (λ e. any (enrich mul default_provider e))
        (trades_of decode
          (run mul default_provider decode to_the_end (new_processor (pos 1) (pos 4))).marked)
unfolding run step new_processor new_worker_pool submit take stop send receive make publish
    publish_step new_fan_out size_or
drained_delivers_marked_example =
    drained_delivers_marked mul default_provider decode (pos 1) (pos 4) to_the_end any redis_writer
      refl refl (refl, tt)

run-IsConserved_example :
    IsConserved mul default_provider decode
      (run mul default_provider decode to_the_end (new_processor (pos 1) (pos 4)))
run-IsConserved_example = run-IsConserved mul default_provider decode (pos 1) (pos 4) to_the_end

abbrev shut_down : List Action
shut_down = polls (first_record ∷ []) ∷ visits ∷ submits ∷ cancels ∷ stops 0 ∷ []

marked_never_published_example :
    let s =
      run mul default_provider decode
        (handed_over first_record (size_or default_pool_size (pos 2)))
        (new_processor (pos 2) (pos 4)) in
    (s.marked ≡ first_record ∷ [])
    × ((more : List Action) (k : Sink)
        → sent (chan k (run mul default_provider decode more s).fan) ≡ [])
marked_never_published_example =
    marked_never_published mul default_provider decode (pos 2) (pos 4) first_record buy refl

-- The second record is still in the queue.
abbrev half_way : List Action
half_way =
    polls (first_record ∷ second_record ∷ [])
    ∷ visits
    ∷ submits
    ∷ takes 0
    ∷ publishes 0 (accept redis_writer)
    ∷ visits
    ∷ submits
    ∷ []

one_worker_prefix_example :
    let s = run mul default_provider decode half_way (new_processor (pos 1) (pos 4)) in
    (rest : List TradeEvent) × (map (enrich mul default_provider) (trades_of decode s.marked)
      ≡ sent (chan redis_writer s.fan) ++ rest)
unfolding run step new_processor new_worker_pool submit take send receive make publish publish_step
    new_fan_out size_or
one_worker_prefix_example =
    one_worker_prefix mul default_provider decode (pos 4) half_way redis_writer refl

one_worker_in_order_example :
    let s = run mul default_provider decode to_the_end (new_processor (pos 1) (pos 4)) in
    sent (chan redis_writer s.fan) ≡ map (enrich mul default_provider) (trades_of decode s.marked)
unfolding run step new_processor new_worker_pool submit take send receive make publish publish_step
    new_fan_out size_or
one_worker_in_order_example =
    one_worker_in_order mul default_provider decode (pos 4) to_the_end redis_writer refl refl refl
