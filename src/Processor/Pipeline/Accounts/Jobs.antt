-- ===== src/Processor/Pipeline/Accounts/Jobs.antt =====
-- The trades between the consumer's marks and the workers.
use trade_pulse.Prelude.{
  ℕ, ◌+◌, ◌≡◌, refl, ap, Bool, true, false, [], ◌∷◌, Option, none, some, arith, get_elem?,
  Option-cases, inl, inr,
}
use trade_pulse.Prelude.Counting.{count, total, count-append, total-set}
use trade_pulse.Machine.{Float64}
use trade_pulse.Text.{Text}
use trade_pulse.Channel.{send, receive, receive-some}
use trade_pulse.Domain.{TradeEvent}
use trade_pulse.Processor.Enricher.{Provider}
use trade_pulse.Processor.FanOut.{FanOut, Pending, Call, selecting, returned, Case, publish, chan}
use trade_pulse.Processor.Pool.{
  Worker, idle, busy, stopped, WorkerPool, submit, take, stop, take_by, taken, stop_by,
}
use trade_pulse.Processor.Pipeline.{
  Processor, Action, polls, visits, submits, gives_up, takes, publishes, stops, receives, cancels,
  step, progress, publish_by,
}
use trade_pulse.Processor.Pipeline.Accounts.{in_flight, given_up}

-- Each trade that left the queue is in flight, published or abandoned.
abbrev pub IsAccounted : (TradeEvent → Bool) → Processor → Type 0
IsAccounted p s =
    count p s.pool.jobs.received
    ≡ total (in_flight p) s.pool.workers + count p s.published + total (given_up p) s.abandoned

module _ (p : TradeEvent → Bool) where
  take-IsAccounted :
      (i : ℕ) (s : Processor) (w : Option (Worker Call))
      → get_elem? s.pool.workers i ≡ w
      → IsAccounted p s
      → IsAccounted p (record s { pool = take_by (λ event. publish) s.pool i w })
  take-IsAccounted i s none e v = v
  take-IsAccounted i s (some idle) e v = elim (Option-cases (receive s.pool.jobs)) [
    | inl r ↦ rw (r, taken) v
    | inr ((event, c), r) ↦
        rw (r, taken)
          (omega (
            arith,
            v,
            total-set (in_flight p) s.pool.workers i idle (busy event publish) e,
            ap (count p) (receive-some s.pool.jobs c event r).2,
            count-append p s.pool.jobs.received (event ∷ []),
          ))
  ]
  take-IsAccounted i s (some (busy event c)) e v = v
  take-IsAccounted i s (some stopped) e v = v

  stop-IsAccounted :
      (i : ℕ) (s : Processor) (cancelled : Bool) (w : Option (Worker Call))
      → get_elem? s.pool.workers i ≡ w
      → IsAccounted p s
      → IsAccounted p (record s { pool = stop_by cancelled s.pool i w })
  stop-IsAccounted i s true (some idle) e v =
      omega (arith, total-set (in_flight p) s.pool.workers i idle stopped e)
  stop-IsAccounted i s false (some idle) e v = v
  stop-IsAccounted i s true none e v = v
  stop-IsAccounted i s true (some (busy event c)) e v = v
  stop-IsAccounted i s true (some stopped) e v = v
  stop-IsAccounted i s false none e v = v
  stop-IsAccounted i s false (some (busy event c)) e v = v
  stop-IsAccounted i s false (some stopped) e v = v

  submit-IsAccounted :
      (s : Processor) (event : TradeEvent) (pool : WorkerPool Call)
      → submit event s.pool ≡ some pool
      → IsAccounted p s
      → IsAccounted p (record s { pool = pool })
  unfolding submit send
  submit-IsAccounted s event pool e v = ground arith

module _ (mul : Float64 → Float64 → Float64) (metadata : Provider)
    (decode : Text → Option TradeEvent) (p : TradeEvent → Bool) where
  progress-IsAccounted :
      (i : ℕ) (event : TradeEvent) (q : Pending) (s : Processor) (r : Option (Call × FanOut))
      → get_elem? s.pool.workers i ≡ some (busy event (selecting q))
      → IsAccounted p s
      → IsAccounted p (progress mul metadata decode i event q s r)
  progress-IsAccounted i event q s none e v = v
  progress-IsAccounted i event q s (some (selecting q', fan)) e v =
      omega (arith, total-set (in_flight p) s.pool.workers i _ (busy event (selecting q')) e)
  progress-IsAccounted i event q s (some (returned none, fan)) e v =
      omega (arith, total-set (in_flight p) s.pool.workers i _ idle e)
  progress-IsAccounted i event q s (some (returned (some x), fan)) e v =
      omega (arith, total-set (in_flight p) s.pool.workers i _ idle e)

  publish_by-IsAccounted :
      (i : ℕ) (c : Case) (s : Processor) (w : Option (Worker Call))
      → get_elem? s.pool.workers i ≡ w
      → IsAccounted p s
      → IsAccounted p (publish_by mul metadata decode i c s w)
  publish_by-IsAccounted i c s (some (busy event (selecting q))) e v =
      progress-IsAccounted i event q s _ e v
  publish_by-IsAccounted i c s (some (busy event (returned r))) e v = v
  publish_by-IsAccounted i c s (some idle) e v = v
  publish_by-IsAccounted i c s (some stopped) e v = v
  publish_by-IsAccounted i c s none e v = v

  pub step-IsAccounted :
      (a : Action) (s : Processor) → IsAccounted p s → IsAccounted p (step mul metadata decode a s)
  unfolding step take stop
  step-IsAccounted (polls recs) s v = ground arith
  step-IsAccounted visits s v = ground arith
  step-IsAccounted submits s v = elim (Option-cases s.submitting) [
    | inl e ↦ rw e v
    | inr ((rec, event), e) ↦ elim (Option-cases (submit event s.pool)) [
      | inl f ↦ rw (e, f) v
      | inr (pool, f) ↦ rw (e, f) (submit-IsAccounted p s event pool f v)
    ]
  ]
  step-IsAccounted gives_up s v = ground arith
  step-IsAccounted (takes i) s v = take-IsAccounted p i s _ refl v
  step-IsAccounted (publishes i c) s v = publish_by-IsAccounted i c s _ refl v
  step-IsAccounted (stops i) s v = stop-IsAccounted p i s s.cancelled _ refl v
  step-IsAccounted (receives k) s v = elim (Option-cases (receive (chan k s.fan))) [
    | inl e ↦ rw e v
    | inr ((event, c), e) ↦ rw e v
  ]
  step-IsAccounted cancels s v = v
