-- ===== src/Processor/Pipeline/Fifo/Delivers.antt =====
-- The one worker takes a trade, and hands it to the sinks.
use mathlib.Core.List.{append-nil, map-append}
use trade_pulse.Prelude.{
  ℕ, zero, suc, ◌≡◌, ◌≢◌, refl, sym, ap, ◌∙◌, ◌++◌, inl, inr, Bool, false, List, [], ◌∷◌, map,
  Option, none, some, arith, get_elem?, set, Option-cases,
}
use trade_pulse.Machine.{Float64}
use trade_pulse.Text.{Text}
use trade_pulse.Channel.{sent, receive, receive-some}
use trade_pulse.Domain.{TradeEvent}
use trade_pulse.Processor.Enricher.{Provider, enrich}
use trade_pulse.Processor.FanOut.{
  FanOut, Sink, order_book, redis_writer, broadcast, chan, Pending, clear, Call, selecting,
  returned, CtxError, Case, accept, ctx_done, loop, publish, publish_step,
}
use trade_pulse.Processor.FanOut.Delivery.{Delivered, accept_delivers}
use trade_pulse.Processor.Pool.{Worker, idle, busy, stopped, WorkerPool, take_by, taken}
use trade_pulse.Processor.Pipeline.{Processor, progress, publish_by}
use trade_pulse.Processor.Pipeline.Accounts.Sinks.{accept_inversion}
use trade_pulse.Processor.Pipeline.Fifo.{InLine, OneInLine}

module _ (mul : Float64 → Float64 → Float64) (metadata : Provider)
    (decode : Text → Option TradeEvent) where
  abbrev enriched : TradeEvent → TradeEvent
  enriched = enrich mul metadata

  pub take-OneInLine :
      (i : ℕ) (pool : WorkerPool Call) (f : FanOut) (w : Worker Call)
      → pool.workers ≡ w ∷ []
      → InLine mul metadata decode pool.jobs.received f w
      → OneInLine mul metadata decode (take_by (λ event. publish) pool i (get_elem? (w ∷ []) i)) f
  unfolding publish
  take-OneInLine (suc i) pool f w one line = (w, one, line)
  take-OneInLine zero pool f (busy event c) one line = (busy event c, one, line)
  take-OneInLine zero pool f stopped one line = absurd line
  take-OneInLine zero pool f idle one line = elim (Option-cases (receive pool.jobs)) [
    | inl e ↦ rw (e, taken) (idle, one, line)
    | inr ((event, jobs), e) ↦
        rw (e, taken)
          (
            busy event publish,
            ap (λ ws. set ws 0 (busy event publish)) one,
            (
              pool.jobs.received,
              (receive-some pool.jobs jobs event e).2,
              all_pending event (map enriched pool.jobs.received) f line,
            ),
          )
  ]
    where
      all_pending :
          (event : TradeEvent) (past : List TradeEvent) (f : FanOut)
          → ((k : Sink) → sent (chan k f) ≡ past)
          → (k : Sink) → Delivered (enriched event) past k publish (sent (chan k f))
      all_pending event past f line order_book = line order_book ∙ sym (append-nil past)
      all_pending event past f line redis_writer = line redis_writer ∙ sym (append-nil past)
      all_pending event past f line broadcast = line broadcast ∙ sym (append-nil past)

  -- The worker after its call came to stand at `call`, where that is no error.
  progress-OneInLine :
      (event : TradeEvent) (past : List TradeEvent) (q : Pending) (s : Processor) (w : Worker Call)
      (call : Call) (g : FanOut)
      → s.pool.workers ≡ w ∷ []
      → s.pool.jobs.received ≡ past ++ event ∷ []
      → ((e : CtxError) → call ≢ returned (some e))
      → ((k : Sink) → Delivered (enriched event) (map enriched past) k call (sent (chan k g)))
      → let t = progress mul metadata decode 0 event q s (some (call, g)) in
        OneInLine mul metadata decode t.pool t.fan
  progress-OneInLine event past q s w (selecting q') g one last fine sends = (
    busy event (selecting q'),
    ap (λ ws. set ws 0 (busy event (selecting q'))) one,
    (past, last, sends),
  )
  progress-OneInLine event past q s w (returned none) g one last fine sends = (
    idle,
    ap (λ ws. set ws 0 idle) one,
    λ k. sends k ∙ sym (map-append enriched past (event ∷ [])) ∙ ap (map enriched) (sym last),
  )
  progress-OneInLine event past q s w (returned (some e)) g one last fine sends =
      absurd (fine e refl)

  loop_fine : (q : Pending) (e : CtxError) → loop q ≢ returned (some e)
  loop_fine q e h = ground arith

  accepts-OneInLine :
      (event : TradeEvent) (past : List TradeEvent) (q : Pending) (s : Processor) (j : Sink)
      (r : Option (Call × FanOut))
      → publish_step s.cancelled (enriched event) (accept j) (selecting q) s.fan ≡ r
      → s.pool.workers ≡ busy event (selecting q) ∷ []
      → s.pool.jobs.received ≡ past ++ event ∷ []
      → ((k : Sink)
          → Delivered (enriched event) (map enriched past) k (selecting q) (sent (chan k s.fan)))
      → let t = progress mul metadata decode 0 event q s r in
        OneInLine mul metadata decode t.pool t.fan
  accepts-OneInLine event past q s j none e one last sends =
      (busy event (selecting q), one, (past, last, sends))
  accepts-OneInLine event past q s j (some (call, g)) e one last sends =
      let (c, sent_on, pending, same_call, same_fan) =
        accept_inversion s.cancelled (enriched event) j q s.fan call g e in
      progress-OneInLine event past q s (busy event (selecting q)) call g one last
        (λ x h. loop_fine (clear j q) x (sym same_call ∙ h))
        (λ k.
          rw (same_call, same_fan)
            (accept_delivers (enriched event) j k q s.fan c (map enriched past) sent_on pending
              (sends k)))

  not_done :
      (copy : TradeEvent) (q : Pending) (f : FanOut) (cancelled : Bool)
      → cancelled ≡ false
      → publish_step cancelled copy ctx_done (selecting q) f ≡ none
  unfolding publish_step
  not_done copy q f cancelled live = rw live

  pub publish-OneInLine :
      (i : ℕ) (c : Case) (s : Processor) (w : Worker Call)
      → s.cancelled ≡ false
      → s.pool.workers ≡ w ∷ []
      → InLine mul metadata decode s.pool.jobs.received s.fan w
      → let t = publish_by mul metadata decode i c s (get_elem? (w ∷ []) i) in
        OneInLine mul metadata decode t.pool t.fan
  publish-OneInLine (suc i) c s w live one line = (w, one, line)
  publish-OneInLine zero c s idle live one line = (idle, one, line)
  publish-OneInLine zero c s stopped live one line = absurd line
  publish-OneInLine zero c s (busy event (returned r)) live one line = absurd line
  publish-OneInLine zero (accept j) s (busy event (selecting q)) live one (past, last, sends) =
      accepts-OneInLine event past q s j _ refl one last sends
  publish-OneInLine zero ctx_done s (busy event (selecting q)) live one line =
      rw (not_done (enriched event) q s.fan s.cancelled live) (busy event (selecting q), one, line)
