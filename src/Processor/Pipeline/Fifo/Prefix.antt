-- ===== src/Processor/Pipeline/Fifo/Prefix.antt =====
-- What each sink has been sent, against the marked records.
use mathlib.Core.List.{append-nil, append_assoc, map-append}
use trade_pulse.Prelude.{
  ◌≡◌, sym, ap, subst, ◌∙◌, ◌++◌, inl, inr, false, List, [], ◌∷◌, map, Option, arith, Bool-cases,
}
use trade_pulse.Prelude.Int.{ℤ, pos}
use trade_pulse.Machine.{Float64}
use trade_pulse.Text.{Text}
use trade_pulse.Channel.{sent}
use trade_pulse.Domain.{TradeEvent}
use trade_pulse.Processor.Enricher.{Provider, enrich}
use trade_pulse.Processor.FanOut.{FanOut, Sink, chan, is_pending, Call, selecting, returned}
use trade_pulse.Processor.Pool.{Worker, idle, busy, stopped}
use trade_pulse.Processor.Pipeline.{Processor, Action, new_processor, run}
use trade_pulse.Processor.Pipeline.Accounts.{trades_of}
use trade_pulse.Processor.Pipeline.Accounts.Totals.{run-IsConserved}
use trade_pulse.Processor.Pipeline.Fifo.Steps.{run-IsFifo, new-IsFifo}
use trade_pulse.Processor.Pipeline.Fifo.{InLine, OneInLine, IsFifo}

module _ (mul : Float64 → Float64 → Float64) (metadata : Provider)
    (decode : Text → Option TradeEvent) where
  abbrev enriched : TradeEvent → TradeEvent
  enriched = enrich mul metadata

  -- What a sink has been sent, as the beginning of what the queue has been sent.
  InLine-prefix :
      (received waiting : List TradeEvent) (f : FanOut) (w : Worker Call) (k : Sink)
      → InLine mul metadata decode received f w
      → (rest : List TradeEvent) × (map enriched (received ++ waiting) ≡ sent (chan k f) ++ rest)
  InLine-prefix received waiting f idle k line = (
    map enriched waiting,
    map-append enriched received waiting ∙ ap (λ l. l ++ map enriched waiting) (sym (line k)),
  )
  InLine-prefix received waiting f (busy event (selecting q)) k (past, last, sends) =
      let all =
        ap (λ l. map enriched (l ++ waiting)) last
        ∙ ap (map enriched) (append_assoc past (event ∷ []) waiting)
        ∙ map-append enriched past (event ∷ waiting) in
      let so_far = sends k in
      elim (Bool-cases (is_pending k q)) [
        | inl h ↦ (
          enriched event ∷ map enriched waiting,
          all
              ∙ ap (λ l. l ++ (enriched event ∷ map enriched waiting))
                  (sym (append-nil (map enriched past)) ∙ sym (rw h at so_far)),
        )
        | inr h ↦ (
          map enriched waiting,
          all
              ∙ sym (append_assoc (map enriched past) (enriched event ∷ []) (map enriched waiting))
              ∙ ap (λ l. l ++ map enriched waiting) (sym (rw h at so_far)),
        )
      ]
  InLine-prefix received waiting f (busy event (returned r)) k line = absurd line
  InLine-prefix received waiting f stopped k line = absurd line

  one_in_line :
      (s : Processor)
      → IsFifo mul metadata decode s
      → s.cancelled ≡ false
      → OneInLine mul metadata decode s.pool s.fan
  one_in_line s (inl done) live = absurd (ground arith)
  one_in_line s (inr v) live = v

  -- With one worker and no cancellation, whatever the interleaving, each sink has been sent the enriched
  -- copies of the trades of the marked records in the order of the marks, up to some point: none is
  -- skipped, repeated or out of place.
  pub one_worker_prefix :
      (buffer : ℤ) (actions : List Action) (k : Sink)
      → (run mul metadata decode actions (new_processor (pos 1) buffer)).cancelled ≡ false
      → let s = run mul metadata decode actions (new_processor (pos 1) buffer) in
        (rest : List TradeEvent) × (map (enrich mul metadata) (trades_of decode s.marked)
          ≡ sent (chan k s.fan) ++ rest)
  unfolding sent
  one_worker_prefix buffer actions k live =
      let s = run mul metadata decode actions (new_processor (pos 1) buffer) in
      let (w, one, line) =
        one_in_line s
          (run-IsFifo mul metadata decode actions (new_processor (pos 1) buffer)
            (new-IsFifo mul metadata decode buffer))
          live in
      let (rest, e) = InLine-prefix s.pool.jobs.received s.pool.jobs.buffered s.fan w k line in
      (
        rest,
        ap (map enriched)
              (run-IsConserved mul metadata decode (pos 1) buffer actions).marks.in_order
            ∙ e,
      )

  -- With one worker that is idle, an empty queue and no cancellation, each sink has been sent exactly the
  -- enriched copies of the trades of the marked records, in the order of the marks.
  pub one_worker_in_order :
      (buffer : ℤ) (actions : List Action) (k : Sink)
      → let s = run mul metadata decode actions (new_processor (pos 1) buffer) in
        s.cancelled ≡ false
        → s.pool.jobs.buffered ≡ []
        → s.pool.workers ≡ idle ∷ []
        → sent (chan k s.fan) ≡ map (enrich mul metadata) (trades_of decode s.marked)
  unfolding sent
  one_worker_in_order buffer actions k live empty rests =
      let s = run mul metadata decode actions (new_processor (pos 1) buffer) in
      let (w, one, line) =
        one_in_line s
          (run-IsFifo mul metadata decode actions (new_processor (pos 1) buffer)
            (new-IsFifo mul metadata decode buffer))
          live in
      let all = (run-IsConserved mul metadata decode (pos 1) buffer actions).marks.in_order in
      let same : w ≡ idle = cc (one, rests) in
      let sends : (k' : Sink) → sent (chan k' s.fan) ≡ map enriched s.pool.jobs.received =
        subst (InLine mul metadata decode s.pool.jobs.received s.fan) same line in
      sends k
      ∙ ap (map enriched) (
          sym (append-nil s.pool.jobs.received)
          ∙ ap (λ l. s.pool.jobs.received ++ l) (sym empty)
          ∙ sym all)
