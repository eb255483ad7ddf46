-- ===== src/Processor/Pipeline/Accounts/Sinks.antt =====
-- What the sinks have been sent, against the calls of Publish that are done, open or abandoned.
use trade_pulse.Prelude.{
  ℕ, ◌+◌, ◌≡◌, refl, sym, ap, Bool, true, false, [], ◌∷◌, Option, none, some, arith, get_elem?,
  if◌then◌else◌, Option-cases, inl, inr,
}
use trade_pulse.Prelude.Counting.{count, total, count-append, total-set}
use trade_pulse.Machine.{Float64}
use trade_pulse.Text.{Text}
use trade_pulse.Channel.{Chan, sent, send, receive, send-some, receive-some}
use trade_pulse.Domain.{TradeEvent}
use trade_pulse.Processor.Enricher.{Provider, enrich}
use trade_pulse.Processor.FanOut.{
  FanOut, Sink, order_book, redis_writer, broadcast, Pending, is_pending, clear, Call, selecting,
  returned, Case, accept, ctx_done, publish, publish_step, loop, chan, set_chan,
}
use trade_pulse.Processor.Pool.{
  Worker, idle, busy, stopped, WorkerPool, submit, take, stop, take_by, taken, stop_by,
}
use trade_pulse.Processor.Pipeline.{
  Processor, Action, polls, visits, submits, gives_up, takes, publishes, stops, receives, cancels,
  step, progress, publish_by, after_receive,
}
use trade_pulse.Processor.Pipeline.Accounts.{accepted_of, accepted_by, accepted_before}

pub accept_inversion :
    (cancelled : Bool) (copy : TradeEvent) (j : Sink) (q : Pending) (f : FanOut) (call : Call)
    (g : FanOut)
    → publish_step cancelled copy (accept j) (selecting q) f ≡ some (call, g)
    → (c : Chan TradeEvent) × (send copy (chan j f) ≡ some c)
      × (is_pending j q ≡ true)
      × (call ≡ loop (clear j q))
      × (g ≡ set_chan j c f)
unfolding publish_step
accept_inversion cancelled copy j q f call g e = elim (Option-cases (send copy (chan j f))) [
  | inl s ↦ absurd (ground arith)
  | inr (c, s) ↦ (c, s, ground arith, ground arith, ground arith)
]

module _ (p : TradeEvent → Bool) where
  -- What a call has given to a sink, by where it stands after a step from `q`.
  abbrev given : Sink → TradeEvent → Pending → Call → ℕ
  given k copy q (selecting q') = accepted_of p k copy q'
  given k copy q (returned none) = if p copy then 1 else 0
  given k copy q (returned (some e)) = accepted_of p k copy q

  send-count :
      (event : TradeEvent) (c d : Chan TradeEvent)
      → send event c ≡ some d
      → count p (sent d) ≡ count p (sent c) + (if p event then 1 else 0)
  send-count event c d e =
      omega (arith, ap (count p) (send-some event c d e).0, count-append p (sent c) (event ∷ []))

  accept-count :
      (k j : Sink) (copy : TradeEvent) (q : Pending) (f : FanOut) (c : Chan TradeEvent)
      → send copy (chan j f) ≡ some c
      → is_pending j q ≡ true
      → count p (sent (chan k (set_chan j c f))) + accepted_of p k copy q
        ≡ count p (sent (chan k f)) + given k copy q (loop (clear j q))
  accept-count order_book order_book copy q f c e h =
      ground (arith, send-count copy f.order_book c e)
  accept-count order_book redis_writer copy q f c e h = ground arith
  accept-count order_book broadcast copy q f c e h = ground arith
  accept-count redis_writer redis_writer copy q f c e h =
      ground (arith, send-count copy f.redis_writer c e)
  accept-count redis_writer order_book copy q f c e h = ground arith
  accept-count redis_writer broadcast copy q f c e h = ground arith
  accept-count broadcast broadcast copy q f c e h = ground (arith, send-count copy f.broadcast c e)
  accept-count broadcast order_book copy q f c e h = ground arith
  accept-count broadcast redis_writer copy q f c e h = ground arith

  -- One case of the `select` of a call, and what it gives to each sink.
  publish_step-count :
      (k : Sink) (cancelled : Bool) (copy : TradeEvent) (c : Case) (q : Pending) (f : FanOut)
      (call : Call) (g : FanOut)
      → publish_step cancelled copy c (selecting q) f ≡ some (call, g)
      → count p (sent (chan k g)) + accepted_of p k copy q
        ≡ count p (sent (chan k f)) + given k copy q call
  unfolding publish_step
  publish_step-count k cancelled copy (accept j) q f call g e =
      let (c, s, h, same_call, same_fan) = accept_inversion cancelled copy j q f call g e in
      rw (same_call, same_fan) (accept-count k j copy q f c s h)
  publish_step-count k cancelled copy ctx_done q f call g e = ground arith

pub received-sent :
    (k j : Sink) (f : FanOut) (c : Chan TradeEvent) (event : TradeEvent)
    → receive (chan j f) ≡ some (event, c)
    → sent (chan k (set_chan j c f)) ≡ sent (chan k f)
received-sent order_book order_book f c event e = sym (receive-some f.order_book c event e).0
received-sent redis_writer redis_writer f c event e = sym (receive-some f.redis_writer c event e).0
received-sent broadcast broadcast f c event e = sym (receive-some f.broadcast c event e).0
received-sent order_book redis_writer f c event e = refl
received-sent order_book broadcast f c event e = refl
received-sent redis_writer order_book f c event e = refl
received-sent redis_writer broadcast f c event e = refl
received-sent broadcast order_book f c event e = refl
received-sent broadcast redis_writer f c event e = refl

pub submit-workers :
    (event : TradeEvent) (pool next : WorkerPool Call)
    → submit event pool ≡ some next
    → next.workers ≡ pool.workers
unfolding submit send
submit-workers event pool next e = ground arith

module _ (mul : Float64 → Float64 → Float64) (metadata : Provider)
    (decode : Text → Option TradeEvent) (p : TradeEvent → Bool) (k : Sink) where
  abbrev enriched : TradeEvent → TradeEvent
  enriched = enrich mul metadata

  -- The sink was sent the copies of the published trades, and of those of the others that it accepted.
  abbrev pub IsDelivered : Processor → Type 0
  IsDelivered s =
      count p (sent (chan k s.fan))
      ≡ count (λ event. p (enriched event)) s.published
        + total (accepted_by p k enriched) s.pool.workers
        + total (accepted_before p k enriched) s.abandoned

  take-IsDelivered :
      (i : ℕ) (s : Processor) (w : Option (Worker Call))
      → get_elem? s.pool.workers i ≡ w
      → IsDelivered s
      → IsDelivered (record s { pool = take_by (λ event. publish) s.pool i w })
  unfolding publish
  take-IsDelivered i s none e v = v
  take-IsDelivered i s (some (busy event c)) e v = v
  take-IsDelivered i s (some stopped) e v = v
  take-IsDelivered i s (some idle) e v = elim (Option-cases (receive s.pool.jobs)) [
    | inl r ↦ rw (r, taken) v
    | inr ((event, c), r) ↦
        rw (r, taken)
          (ground (
            arith,
            total-set (accepted_by p k enriched) s.pool.workers i idle (busy event publish) e,
          ))
  ]

  stop-IsDelivered :
      (i : ℕ) (s : Processor) (cancelled : Bool) (w : Option (Worker Call))
      → get_elem? s.pool.workers i ≡ w
      → IsDelivered s
      → IsDelivered (record s { pool = stop_by cancelled s.pool i w })
  stop-IsDelivered i s true (some idle) e v =
      omega (arith, total-set (accepted_by p k enriched) s.pool.workers i idle stopped e)
  stop-IsDelivered i s false (some idle) e v = v
  stop-IsDelivered i s cancelled none e v = ground arith
  stop-IsDelivered i s cancelled (some (busy event c)) e v = ground arith
  stop-IsDelivered i s cancelled (some stopped) e v = ground arith

  progress-IsDelivered :
      (i : ℕ) (event : TradeEvent) (q : Pending) (c : Case) (s : Processor)
      (r : Option (Call × FanOut))
      → get_elem? s.pool.workers i ≡ some (busy event (selecting q))
      → publish_step s.cancelled (enriched event) c (selecting q) s.fan ≡ r
      → IsDelivered s
      → IsDelivered (progress mul metadata decode i event q s r)
  progress-IsDelivered i event q c s none e h v = v
  progress-IsDelivered i event q c s (some (selecting q', fan)) e h v = omega (
    arith,
    total-set (accepted_by p k enriched) s.pool.workers i _ (busy event (selecting q')) e,
    publish_step-count p k s.cancelled (enriched event) c q s.fan (selecting q') fan h,
  )
  progress-IsDelivered i event q c s (some (returned none, fan)) e h v = omega (
    arith,
    total-set (accepted_by p k enriched) s.pool.workers i _ idle e,
    publish_step-count p k s.cancelled (enriched event) c q s.fan (returned none) fan h,
  )
  progress-IsDelivered i event q c s (some (returned (some x), fan)) e h v = omega (
    arith,
    total-set (accepted_by p k enriched) s.pool.workers i _ idle e,
    publish_step-count p k s.cancelled (enriched event) c q s.fan (returned (some x)) fan h,
  )

  publish_by-IsDelivered :
      (i : ℕ) (c : Case) (s : Processor) (w : Option (Worker Call))
      → get_elem? s.pool.workers i ≡ w
      → IsDelivered s
      → IsDelivered (publish_by mul metadata decode i c s w)
  publish_by-IsDelivered i c s (some (busy event (selecting q))) e v =
      progress-IsDelivered i event q c s _ e refl v
  publish_by-IsDelivered i c s (some (busy event (returned r))) e v = v
  publish_by-IsDelivered i c s (some idle) e v = v
  publish_by-IsDelivered i c s (some stopped) e v = v
  publish_by-IsDelivered i c s none e v = v

  receive-IsDelivered :
      (j : Sink) (s : Processor) (r : Option (TradeEvent × Chan TradeEvent))
      → receive (chan j s.fan) ≡ r
      → IsDelivered s
      → IsDelivered (after_receive mul metadata decode j s r)
  receive-IsDelivered j s none e v = v
  receive-IsDelivered j s (some (event, c)) e v = rw (received-sent k j s.fan c event e) v

  pub step-IsDelivered :
      (a : Action) (s : Processor) → IsDelivered s → IsDelivered (step mul metadata decode a s)
  unfolding step take stop
  step-IsDelivered (polls recs) s v = ground arith
  step-IsDelivered visits s v = ground arith
  step-IsDelivered submits s v = elim (Option-cases s.submitting) [
    | inl e ↦ rw e v
    | inr ((rec, event), e) ↦ elim (Option-cases (submit event s.pool)) [
      | inl f ↦ rw (e, f) v
      | inr (pool, f) ↦ rw (e, f, submit-workers event s.pool pool f) v
    ]
  ]
  step-IsDelivered gives_up s v = ground arith
  step-IsDelivered (takes i) s v = take-IsDelivered i s _ refl v
  step-IsDelivered (publishes i c) s v = publish_by-IsDelivered i c s _ refl v
  step-IsDelivered (stops i) s v = stop-IsDelivered i s s.cancelled _ refl v
  step-IsDelivered (receives j) s v = receive-IsDelivered j s (receive (chan j s.fan)) refl v
  step-IsDelivered cancels s v = v
