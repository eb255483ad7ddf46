-- ===== src/Processor/Pipeline/Accounts/Marks.antt =====
-- The trades of the marked records are those sent to the pool, in the order of the marks.
use mathlib.Core.List.{append-nil}
use trade_pulse.Prelude.{
  ℕ, ◌≡◌, refl, sym, ap, subst, ◌∙◌, ◌++◌, Bool, List, [], ◌∷◌, Option, none, some, arith,
  get_elem?, Option-cases, inl, inr,
}
use trade_pulse.Machine.{Float64}
use trade_pulse.Text.{Text}
use trade_pulse.Channel.{sent, send, receive, send-some, receive-some}
use trade_pulse.Domain.{TradeEvent}
use trade_pulse.Processor.Enricher.{Provider}
use trade_pulse.Processor.Consumer.{Record}
use trade_pulse.Processor.FanOut.{Call, Case, publish, chan}
use trade_pulse.Processor.Pool.{
  Worker, idle, busy, stopped, WorkerPool, submit, take, stop, take_by, taken, stop_by,
}
use trade_pulse.Processor.Pipeline.{
  Processor, Action, polls, visits, submits, gives_up, takes, publishes, stops, receives, cancels,
  step, publish_by, visit, submit_to,
}
use trade_pulse.Processor.Pipeline.Accounts.{trades_of}

module _ (decode : Text → Option TradeEvent) where
  trades_of-append :
      (xs ys : List Record)
      → trades_of decode (xs ++ ys) ≡ trades_of decode xs ++ trades_of decode ys
  trades_of-append [] ys = refl
  trades_of-append (x ∷ xs) ys = elim (Option-cases (decode x.value)) [
    | inl e ↦ rw e (trades_of-append xs ys)
    | inr (event, e) ↦ rw e (ap (◌∷◌ event) (trades_of-append xs ys))
  ]

  -- A trade waits in Submit only for the record that it was decoded from.
  abbrev pub IsDecoded : Option (Record × TradeEvent) → Type 0
  IsDecoded none = Unit
  IsDecoded (some (rec, event)) = decode rec.value ≡ some event

  -- The trades of the marked records are the ones sent to the pool, in order.
  pub record IsMarked (s : Processor) : Type 0 where
    pub decoded : IsDecoded s.submitting
    pub in_order : trades_of decode s.marked ≡ sent s.pool.jobs

module _ (mul : Float64 → Float64 → Float64) (metadata : Provider)
    (decode : Text → Option TradeEvent) where
  take-sent :
      (i : ℕ) (pool : WorkerPool Call) (w : Option (Worker Call))
      → sent (take_by (λ event. publish) pool i w).jobs ≡ sent pool.jobs
  take-sent i pool none = refl
  take-sent i pool (some (busy event c)) = refl
  take-sent i pool (some stopped) = refl
  take-sent i pool (some idle) = elim (Option-cases (receive pool.jobs)) [
    | inl r ↦ rw (r, taken)
    | inr ((event, c), r) ↦ rw (r, taken) (sym (receive-some pool.jobs c event r).0)
  ]

  stop-sent :
      (cancelled : Bool) (i : ℕ) (pool : WorkerPool Call) (w : Option (Worker Call))
      → sent (stop_by cancelled pool i w).jobs ≡ sent pool.jobs
  stop-sent cancelled i pool w = ground arith

  publish_by-sent :
      (i : ℕ) (c : Case) (s : Processor) (w : Option (Worker Call))
      → let t = publish_by mul metadata decode i c s w in
        (sent t.pool.jobs ≡ sent s.pool.jobs)
        × (t.marked ≡ s.marked)
        × (t.submitting ≡ s.submitting)
  publish_by-sent i c s w = ground arith

  submit-sent :
      (event : TradeEvent) (pool next : WorkerPool Call)
      → submit event pool ≡ some next
      → sent next.jobs ≡ sent pool.jobs ++ event ∷ []
  unfolding submit
  submit-sent event pool next e = elim (Option-cases (send event pool.jobs)) [
    | inl f ↦ cc
    | inr (jobs, f) ↦ ground (arith, send-some event pool.jobs jobs f)
  ]

  mark-IsMarked :
      (s : Processor) (rec : Record) (event : TradeEvent) (pool : WorkerPool Call)
      → decode rec.value ≡ some event
      → submit event s.pool ≡ some pool
      → trades_of decode s.marked ≡ sent s.pool.jobs
      → trades_of decode (s.marked ++ rec ∷ []) ≡ sent pool.jobs
  mark-IsMarked s rec event pool d e v =
      trades_of-append decode s.marked (rec ∷ []) ∙ rw (d, v, submit-sent event s.pool pool e)

  visit-IsMarked :
      (s : Processor) (batch : List Record) (waiting : Option (Record × TradeEvent))
      → s.submitting ≡ waiting
      → IsMarked decode s
      → IsMarked decode (visit mul metadata decode batch waiting s)
  visit-IsMarked s [] waiting e v = v
  visit-IsMarked s (rec ∷ rest) (some x) e v = v
  visit-IsMarked s (rec ∷ rest) none e v = elim (Option-cases (decode rec.value)) [
    | inl d ↦ rw d (record {
      decoded = v.decoded;
      in_order =
          trades_of-append decode s.marked (rec ∷ [])
          ∙ rw d (append-nil (trades_of decode s.marked) ∙ v.in_order);
    })
    | inr (event, d) ↦ rw d (record { decoded = d; in_order = v.in_order })
  ]

  submit-IsMarked :
      (s : Processor) (waiting : Option (Record × TradeEvent))
      → s.submitting ≡ waiting
      → IsMarked decode s
      → IsMarked decode (submit_to mul metadata decode waiting s)
  submit-IsMarked s none e v = v
  submit-IsMarked s (some (rec, event)) e v = elim (Option-cases (submit event s.pool)) [
    | inl f ↦ rw f v
    | inr (pool, f) ↦ rw f (record {
      decoded = tt;
      in_order = mark-IsMarked s rec event pool (subst (IsDecoded decode) e v.decoded) f v.in_order;
    })
  ]

  pub step-IsMarked :
      (a : Action) (s : Processor)
      → IsMarked decode s
      → IsMarked decode (step mul metadata decode a s)
  unfolding step take stop
  step-IsMarked (polls recs) s v = ground arith
  step-IsMarked visits s v = visit-IsMarked s s.batch s.submitting refl v
  step-IsMarked submits s v = submit-IsMarked s s.submitting refl v
  step-IsMarked gives_up s v = ground arith
  step-IsMarked (takes i) s v = record {
    decoded = v.decoded;
    in_order = v.in_order ∙ sym (take-sent i s.pool _);
  }
  step-IsMarked (publishes i c) s v =
      let (a, b, w) = publish_by-sent i c s (get_elem? s.pool.workers i) in
      record { decoded = rw w v.decoded; in_order = rw (b, a) v.in_order }
  step-IsMarked (stops i) s v = record {
    decoded = v.decoded;
    in_order = v.in_order ∙ sym (stop-sent s.cancelled i s.pool _);
  }
  step-IsMarked (receives k) s v = elim (Option-cases (receive (chan k s.fan))) [
    | inl e ↦ rw e v
    | inr ((event, c), e) ↦ rw e (record { decoded = v.decoded; in_order = v.in_order })
  ]
  step-IsMarked cancels s v = record { decoded = v.decoded; in_order = v.in_order }
