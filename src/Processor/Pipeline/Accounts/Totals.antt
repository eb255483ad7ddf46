-- ===== src/Processor/Pipeline/Accounts/Totals.antt =====
-- The accounts of every state that the pipeline reaches from its start.
use mathlib.Core.List.{append-nil}
use trade_pulse.Prelude.{
  ℕ, ◌≡◌, refl, ap, ◌∙◌, ◌⊎◌, inl, inr, Bool, true, false, List, [], ◌∷◌, Option, arith, All,
}
use trade_pulse.Prelude.Counting.{count, total, total-replicate_zero}
use trade_pulse.Prelude.Int.{ℤ}
use trade_pulse.Machine.{Float64}
use trade_pulse.Text.{Text}
use trade_pulse.Channel.{Chan, sent, make}
use trade_pulse.Domain.{TradeEvent}
use trade_pulse.Processor.Enricher.{Provider, enrich}
use trade_pulse.Processor.FanOut.{
  Sink, order_book, chan, Call, accept, ctx_done, publish_step, new_fan_out,
}
use trade_pulse.Processor.Pool.{Worker, idle, new_worker_pool}
use trade_pulse.Processor.Pipeline.{Processor, Action, publishes, cancels, new_processor, step, run}
use trade_pulse.Processor.Pipeline.Accounts.{
  trades_of, in_flight, given_up, accepted_by, accepted_before,
}
use trade_pulse.Processor.Pipeline.Accounts.Marks.{IsMarked, step-IsMarked}
use trade_pulse.Processor.Pipeline.Accounts.Jobs.{IsAccounted, step-IsAccounted}
use trade_pulse.Processor.Pipeline.Accounts.Sinks.{IsDelivered, step-IsDelivered}

pub sent-new : (k : Sink) (buffer : ℤ) → sent (chan k (new_fan_out buffer)) ≡ []
unfolding sent new_fan_out make
sent-new order_book buffer = refl
sent-new _ buffer = refl

-- No call of Publish fails before the cancellation.
abbrev pub IsCalm : Processor → Type 0
IsCalm s = (s.cancelled ≡ true) ⊎ (s.abandoned ≡ [])

calm_live : (s : Processor) → IsCalm s → s.cancelled ≡ false → s.abandoned ≡ []
calm_live s v h = ground arith

module _ (mul : Float64 → Float64 → Float64) (metadata : Provider)
    (decode : Text → Option TradeEvent) where
  step-IsCalm : (a : Action) (s : Processor) → IsCalm s → IsCalm (step mul metadata decode a s)
  unfolding step publish_step
  step-IsCalm (publishes i (accept k)) s v = ground arith
  step-IsCalm (publishes i ctx_done) s v = ground arith
  step-IsCalm cancels s v = inl refl
  step-IsCalm _ s v = ground arith

  pub record IsConserved (s : Processor) : Type 0 where
    pub marks : IsMarked decode s
    pub jobs : (p : TradeEvent → Bool) → IsAccounted p s
    pub sinks : (p : TradeEvent → Bool) (k : Sink) → IsDelivered mul metadata decode p k s
    pub calm : IsCalm s

  step-IsConserved :
      (a : Action) (s : Processor) → IsConserved s → IsConserved (step mul metadata decode a s)
  step-IsConserved a s v = record {
    marks = step-IsMarked mul metadata decode a s v.marks;
    jobs = λ p. step-IsAccounted mul metadata decode p a s (v.jobs p);
    sinks = λ p k. step-IsDelivered mul metadata decode p k a s (v.sinks p k);
    calm = step-IsCalm a s v.calm;
  }

  run-IsConserved_from :
      (actions : List Action) (s : Processor)
      → IsConserved s
      → IsConserved (run mul metadata decode actions s)
  unfolding run
  run-IsConserved_from [] s v = v
  run-IsConserved_from (a ∷ actions) s v =
      run-IsConserved_from actions (step mul metadata decode a s) (step-IsConserved a s v)

  new-IsConserved : (size buffer : ℤ) → IsConserved (new_processor size buffer)
  unfolding new_processor new_worker_pool sent make
  new-IsConserved size buffer = record {
    marks = record { decoded = tt; in_order = refl };
    jobs = λ p. omega (arith, total-replicate_zero (in_flight p) _ idle refl);
    sinks = λ p k. omega (
      arith,
      ap (count p) (sent-new k buffer),
      total-replicate_zero (accepted_by p k (enrich mul metadata)) _ idle refl,
    );
    calm = inr refl;
  }

  -- Whatever the interleaving, and for any test on trades: the trades of the marked records are those
  -- sent to the pool, in order; those taken from the queue are in flight, published or abandoned,
  -- each as often; each sink was sent the enriched copies of the published ones and of those open or
  -- abandoned calls that it accepted, each as often; and none is abandoned before the cancellation.
  pub run-IsConserved :
      (size buffer : ℤ) (actions : List Action)
      → IsConserved (run mul metadata decode actions (new_processor size buffer))
  run-IsConserved size buffer actions =
      run-IsConserved_from actions (new_processor size buffer) (new-IsConserved size buffer)

  total_idle :
      (f : Worker Call → ℕ) (ws : List (Worker Call))
      → f idle ≡ 0
      → All (λ w. w ≡ idle) ws
      → total f ws ≡ 0
  total_idle f [] h all = refl
  total_idle f (w ∷ ws) h all = omega (arith, ap f all.0, total_idle f ws h all.1)

  sent-empty : (c : Chan TradeEvent) → c.buffered ≡ [] → sent c ≡ c.received
  unfolding sent
  sent-empty c e = rw (e, append-nil c.received)

  drained :
      (p : TradeEvent → Bool) (k : Sink) (s : Processor)
      → IsConserved s
      → s.cancelled ≡ false
      → s.pool.jobs.buffered ≡ []
      → All (λ w. w ≡ idle) s.pool.workers
      → count p (sent (chan k s.fan))
        ≡ count (λ e. p (enrich mul metadata e)) (trades_of decode s.marked)
  drained p k s v live empty all = omega (
    arith,
    v.sinks p k,
    v.jobs (λ e. p (enrich mul metadata e)),
    total_idle (accepted_by p k (enrich mul metadata)) s.pool.workers refl all,
    total_idle (in_flight (λ e. p (enrich mul metadata e))) s.pool.workers refl all,
    ap (total (accepted_before p k (enrich mul metadata))) (calm_live s v.calm live),
    ap (total (given_up (λ e. p (enrich mul metadata e)))) (calm_live s v.calm live),
    ap (count (λ e. p (enrich mul metadata e))) (v.marks.in_order ∙ sent-empty s.pool.jobs empty),
  )

  -- What a run leaves of a new processor.
  abbrev pub left_by : ℤ → ℤ → List Action → Processor
  left_by size buffer actions = run mul metadata decode actions (new_processor size buffer)

  -- Once the queue is empty and every worker idle, with no cancellation, each sink has been sent the
  -- enriched copies of the trades of the marked records, each as often, and nothing else.
  pub drained_delivers_marked :
      (size buffer : ℤ) (actions : List Action) (p : TradeEvent → Bool) (k : Sink)
      → (left_by size buffer actions).cancelled ≡ false
      → (left_by size buffer actions).pool.jobs.buffered ≡ []
      → All (λ w. w ≡ idle) (left_by size buffer actions).pool.workers
      → count p (sent (chan k (left_by size buffer actions).fan))
        ≡ count
            (λ e. p (enrich mul metadata e))
            (trades_of decode (left_by size buffer actions).marked)
  drained_delivers_marked size buffer actions p k live empty all =
      drained p k _ (run-IsConserved size buffer actions) live empty all
