-- ===== src/Processor/Pipeline/Fifo/Steps.antt =====
-- Every step keeps the one worker in line.
use trade_pulse.Prelude.{
  ℕ, ◌≡◌, refl, sym, subst, ◌∙◌, inl, inr, Bool, true, false, List, [], ◌∷◌, Option, some, arith,
  get_elem?, Bool-cases, Option-cases,
}
use trade_pulse.Prelude.Int.{ℤ, pos}
use trade_pulse.Machine.{Float64}
use trade_pulse.Text.{Text}
use trade_pulse.Channel.{sent, make, send, receive}
use trade_pulse.Domain.{TradeEvent}
use trade_pulse.Processor.Enricher.{Provider, enrich}
use trade_pulse.Processor.FanOut.{
  FanOut, Sink, chan, set_chan, Call, selecting, returned, publish, size_or,
}
use trade_pulse.Processor.Pool.{
  Worker, idle, busy, stopped, WorkerPool, new_worker_pool, submit, take, stop, take_by, stop_by,
}
use trade_pulse.Processor.Pipeline.{
  Processor, Action, polls, visits, submits, gives_up, takes, publishes, stops, receives, cancels,
  new_processor, step, run, publish_by,
}
use trade_pulse.Processor.Pipeline.Accounts.Sinks.{received-sent, submit-workers}
use trade_pulse.Processor.Pipeline.Accounts.Totals.{sent-new}
use trade_pulse.Processor.Pipeline.Fifo.Delivers.{take-OneInLine, publish-OneInLine}
use trade_pulse.Processor.Pipeline.Fifo.{InLine, OneInLine, IsFifo}

submit-received :
    (event : TradeEvent) (pool next : WorkerPool Call)
    → submit event pool ≡ some next
    → next.jobs.received ≡ pool.jobs.received
unfolding submit send
submit-received event pool next e = ground arith

module _ (mul : Float64 → Float64 → Float64) (metadata : Provider)
    (decode : Text → Option TradeEvent) where
  abbrev enriched : TradeEvent → TradeEvent
  enriched = enrich mul metadata

  step-cancelled :
      (a : Action) (s : Processor)
      → s.cancelled ≡ true
      → (step mul metadata decode a s).cancelled ≡ true
  unfolding step
  step-cancelled a s h = ground arith

  receive-InLine :
      (received : List TradeEvent) (f g : FanOut) (w : Worker Call)
      → ((k : Sink) → sent (chan k g) ≡ sent (chan k f))
      → InLine mul metadata decode received f w
      → InLine mul metadata decode received g w
  receive-InLine received f g idle same line = λ k. same k ∙ line k
  receive-InLine received f g (busy event (selecting q)) same (past, last, sends) =
      (past, last, λ k. same k ∙ sends k)
  receive-InLine received f g (busy event (returned r)) same line = line
  receive-InLine received f g stopped same line = line

  stop_live :
      (i : ℕ) (cancelled : Bool) (pool : WorkerPool Call) (x : Option (Worker Call))
      → cancelled ≡ false
      → stop_by cancelled pool i x ≡ pool
  stop_live i cancelled pool x live = ground arith

  same-IsFifo :
      (s t : Processor)
      → t.pool ≡ s.pool
      → t.fan ≡ s.fan
      → OneInLine mul metadata decode s.pool s.fan
      → IsFifo mul metadata decode t
  same-IsFifo s t p f v = inr (rw (p, f) v)

  step_live :
      (a : Action) (s : Processor) (w : Worker Call)
      → s.cancelled ≡ false
      → s.pool.workers ≡ w ∷ []
      → InLine mul metadata decode s.pool.jobs.received s.fan w
      → IsFifo mul metadata decode (step mul metadata decode a s)
  unfolding step take stop
  step_live (polls recs) s w live one line =
      same-IsFifo s (step mul metadata decode (polls recs) s) (ground arith) (ground arith)
        (w, one, line)
  step_live visits s w live one line =
      same-IsFifo s (step mul metadata decode visits s) (ground arith) (ground arith) (w, one, line)
  step_live submits s w live one line = elim (Option-cases s.submitting) [
    | inl e ↦ rw e (inr (w, one, line))
    | inr ((rec, event), e) ↦ elim (Option-cases (submit event s.pool)) [
      | inl f ↦ rw (e, f) (inr (w, one, line))
      | inr (pool, f) ↦
          rw (e, f)
            (inr (
              w,
              submit-workers event s.pool pool f ∙ one,
              subst (λ l. InLine mul metadata decode l s.fan w)
                  (sym (submit-received event s.pool pool f)) line,
            ))
    ]
  ]
  step_live gives_up s w live one line = rw live (inr (w, one, line))
  step_live (takes i) s w live one line = inr (
      subst
        (λ ws.
          OneInLine mul metadata decode (take_by (λ event. publish) s.pool i (get_elem? ws i))
            s.fan)
        (sym one) (take-OneInLine mul metadata decode i s.pool s.fan w one line))
  step_live (publishes i c) s w live one line = inr (
      subst
        (λ ws.
          let t = publish_by mul metadata decode i c s (get_elem? ws i) in
          OneInLine mul metadata decode t.pool t.fan)
        (sym one) (publish-OneInLine mul metadata decode i c s w live one line))
  step_live (stops i) s w live one line =
      rw (stop_live i s.cancelled s.pool (get_elem? s.pool.workers i) live) (inr (w, one, line))
  step_live (receives j) s w live one line = elim (Option-cases (receive (chan j s.fan))) [
    | inl e ↦ rw e (inr (w, one, line))
    | inr ((event, c), e) ↦ rw e (
        inr (
          w,
          one,
          receive-InLine s.pool.jobs.received s.fan (set_chan j c s.fan) w
              (λ k. received-sent k j s.fan c event e) line,
        ))
  ]
  step_live cancels s w live one line = inl refl

  step-IsFifo :
      (a : Action) (s : Processor)
      → IsFifo mul metadata decode s
      → IsFifo mul metadata decode (step mul metadata decode a s)
  step-IsFifo a s (inl done) = inl (step-cancelled a s done)
  step-IsFifo a s (inr (w, one, line)) = elim (Bool-cases s.cancelled) [
    | inl done ↦ inl (step-cancelled a s done)
    | inr live ↦ step_live a s w live one line
  ]

  pub run-IsFifo :
      (actions : List Action) (s : Processor)
      → IsFifo mul metadata decode s
      → IsFifo mul metadata decode (run mul metadata decode actions s)
  unfolding run
  run-IsFifo [] s v = v
  run-IsFifo (a ∷ actions) s v =
      run-IsFifo actions (step mul metadata decode a s) (step-IsFifo a s v)

  pub new-IsFifo : (buffer : ℤ) → IsFifo mul metadata decode (new_processor (pos 1) buffer)
  unfolding new_processor new_worker_pool size_or make
  new-IsFifo buffer = inr (idle, refl, λ k. sent-new k buffer)
