-- ===== src/Processor/Pipeline/Shutdown.antt =====
-- What a cancellation leaves behind: the workers stop without draining the queue, although the
-- records of the trades in it are marked as soon as Submit has taken them.
use mathlib.Core.List.{append-nil}
use trade_pulse.Prelude.{
  ℕ, zero, suc, ◌+◌, ◌<◌, lt→ltb, ◌≡◌, refl, sym, ap, ◌∙◌, ◌++◌, ◌⊎◌, inl, inr, true, false, List,
  [], ◌∷◌, Option, none, some, arith, get_elem?, set, replicate, All, Option-cases,
}
use trade_pulse.Prelude.Int.{ℤ, pos, negsuc}
use trade_pulse.Machine.{Float64}
use trade_pulse.Text.{Text}
use trade_pulse.Channel.{sent, make, send, receive}
use trade_pulse.Domain.{TradeEvent}
use trade_pulse.Processor.Enricher.{Provider}
use trade_pulse.Processor.Consumer.{Record}
use trade_pulse.Processor.FanOut.{FanOut, Sink, chan, Call, new_fan_out, size_or}
use trade_pulse.Processor.Pool.{
  Worker, idle, stopped, WorkerPool, new_worker_pool, submit, take, stop, default_pool_size,
}
use trade_pulse.Processor.Pipeline.{
  Processor, Action, polls, visits, submits, gives_up, takes, publishes, stops, receives, cancels,
  new_processor, step, run,
}
use trade_pulse.Processor.Pipeline.Accounts.Sinks.{received-sent, submit-workers}
use trade_pulse.Processor.Pipeline.Accounts.Totals.{sent-new}

-- The workers below `n` stop, the last first.
abbrev pub stop_all : ℕ → List Action
stop_all zero = []
stop_all (suc n) = stops n ∷ stop_all n

abbrev pub handed_over : Record → ℕ → List Action
handed_over rec n = polls (rec ∷ []) ∷ visits ∷ submits ∷ cancels ∷ stop_all n

abbrev pub AllStopped : Processor → Type 0
AllStopped s = All (λ w. w ≡ stopped) s.pool.workers

only_stopped :
    (ws : List (Worker Call)) (i : ℕ)
    → All (λ w. w ≡ stopped) ws
    → (get_elem? ws i ≡ none) ⊎ (get_elem? ws i ≡ some stopped)
only_stopped [] i h = inl refl
only_stopped (w ∷ ws) zero h = inr (ap some h.0)
only_stopped (w ∷ ws) (suc i) h = only_stopped ws i h.1

module _ (mul : Float64 → Float64 → Float64) (metadata : Provider)
    (decode : Text → Option TradeEvent) where
  -- With every worker stopped, no action starts one, and none sends to a sink.
  abbrev IsHalted : List (Worker Call) → Sink → List TradeEvent → Processor → Type 0
  IsHalted ws k before s = (s.pool.workers ≡ ws) × (sent (chan k s.fan) ≡ before)

  step-IsHalted :
      (ws : List (Worker Call)) (k : Sink) (before : List TradeEvent) (a : Action) (s : Processor)
      → All (λ w. w ≡ stopped) ws
      → IsHalted ws k before s
      → IsHalted ws k before (step mul metadata decode a s)
  unfolding step take stop
  step-IsHalted ws k before (polls recs) s h v = ground arith
  step-IsHalted ws k before visits s h v = ground arith
  step-IsHalted ws k before submits s h v = elim (Option-cases s.submitting) [
    | inl e ↦ rw e v
    | inr ((rec, event), e) ↦ elim (Option-cases (submit event s.pool)) [
      | inl f ↦ rw (e, f) v
      | inr (pool, f) ↦ rw (e, f, submit-workers event s.pool pool f) v
    ]
  ]
  step-IsHalted ws k before gives_up s h v = ground arith
  step-IsHalted ws k before (takes i) s h v = ground (arith, only_stopped ws i h)
  step-IsHalted ws k before (publishes i c) s h v = ground (arith, only_stopped ws i h)
  step-IsHalted ws k before (stops i) s h v = ground (arith, only_stopped ws i h)
  step-IsHalted ws k before (receives j) s h v = elim (Option-cases (receive (chan j s.fan))) [
    | inl e ↦ rw e v
    | inr ((event, c), e) ↦ rw e (v.0, received-sent k j s.fan c event e ∙ v.1)
  ]
  step-IsHalted ws k before cancels s h v = v

  run-IsHalted :
      (ws : List (Worker Call)) (k : Sink) (before : List TradeEvent) (actions : List Action)
      (s : Processor)
      → All (λ w. w ≡ stopped) ws
      → IsHalted ws k before s
      → IsHalted ws k before (run mul metadata decode actions s)
  unfolding run
  run-IsHalted ws k before [] s h v = v
  run-IsHalted ws k before (a ∷ actions) s h v =
      run-IsHalted ws k before actions (step mul metadata decode a s) h
        (step-IsHalted ws k before a s h v)

  -- Once every worker has stopped, no sink is ever sent anything more, whatever waits in the queue.
  pub stopped_sends_nothing :
      (s : Processor) (actions : List Action) (k : Sink)
      → AllStopped s
      → sent (chan k (run mul metadata decode actions s).fan) ≡ sent (chan k s.fan)
  stopped_sends_nothing s actions k h =
      (run-IsHalted s.pool.workers k (sent (chan k s.fan)) actions s h (refl, refl)).1

  abbrev stopped_worker : Worker Call
  stopped_worker = stopped

  -- The state after a record was handed over and the context cancelled, `n` workers running.
  abbrev cut_off : Record → TradeEvent → ℕ → FanOut → List (Worker Call) → Processor
  cut_off rec event n fan ws = record {
    batch = [];
    submitting = none;
    marked = rec ∷ [];
    pool = record { jobs = record { cap = n; buffered = event ∷ []; received = [] }; workers = ws };
    fan = fan;
    cancelled = true;
    published = [];
    abandoned = [];
  }

  -- `k` workers still idle, `m` stopped.
  abbrev stopping : ℕ → ℕ → List (Worker Call)
  stopping k m = replicate k idle ++ replicate m stopped

  set-replicate : (k m : ℕ) → set (stopping (suc k) m) k stopped ≡ stopping k (suc m)
  set-replicate zero m = refl
  set-replicate (suc k) m = ap (◌∷◌ idle) (set-replicate k m)

  get_elem?-replicate : (k m : ℕ) → get_elem? (stopping (suc k) m) k ≡ some idle
  get_elem?-replicate zero m = refl
  get_elem?-replicate (suc k) m = get_elem?-replicate k m

  stop_idle :
      (i : ℕ) (pool : WorkerPool Call)
      → get_elem? pool.workers i ≡ some idle
      → stop true i pool ≡ record pool { workers = set pool.workers i stopped }
  unfolding stop
  stop_idle i pool e = ground arith

  stop_last :
      (rec : Record) (event : TradeEvent) (n : ℕ) (fan : FanOut) (k m : ℕ)
      → step mul metadata decode (stops k) (cut_off rec event n fan (stopping (suc k) m))
        ≡ cut_off rec event n fan (stopping k (suc m))
  unfolding step
  stop_last rec event n fan k m =
      let s = cut_off rec event n fan (stopping (suc k) m) in
      ap (λ pool. record s { pool = pool }) (stop_idle k s.pool (get_elem?-replicate k m))
      ∙ ap (cut_off rec event n fan) (set-replicate k m)

  run-stop_all :
      (rec : Record) (event : TradeEvent) (n : ℕ) (fan : FanOut) (k m : ℕ)
      → run mul metadata decode (stop_all k) (cut_off rec event n fan (stopping k m))
        ≡ cut_off rec event n fan (replicate (k + m) stopped)
  unfolding run
  run-stop_all rec event n fan zero m =
      ap (λ t. cut_off rec event n fan (replicate t stopped)) (omega arith)
  run-stop_all rec event n fan (suc k) m =
      ap (run mul metadata decode (stop_all k)) (stop_last rec event n fan k m)
      ∙ run-stop_all rec event n fan k (suc m)
      ∙ ap (λ t. cut_off rec event n fan (replicate t stopped)) (omega arith)

  run-handed_over :
      (rec : Record) (event : TradeEvent) (n : ℕ) (fan : FanOut) (rest : List Action)
      → decode rec.value ≡ some event
      → 0 < n
      → run mul metadata decode (polls (rec ∷ []) ∷ visits ∷ submits ∷ cancels ∷ rest) (record {
        batch = [];
        submitting = none;
        marked = [];
        pool = record { jobs = make n; workers = replicate n idle };
        fan = fan;
        cancelled = false;
        published = [];
        abandoned = [];
      })
        ≡ run mul metadata decode rest (cut_off rec event n fan (replicate n idle))
  unfolding run step submit send make
  run-handed_over rec event n fan rest e room = rw (e, lt→ltb 0 n room)

  size_or-pos : (d : ℕ) (size : ℤ) → 0 < size_or (suc d) size
  unfolding size_or
  size_or-pos d (pos zero) = omega arith
  size_or-pos d (pos (suc n)) = omega arith
  size_or-pos d (negsuc n) = omega arith

  All-replicate_stopped : (n : ℕ) → All (λ w. w ≡ stopped) (replicate n (stopped_worker))
  All-replicate_stopped zero = tt
  All-replicate_stopped (suc n) = (refl, All-replicate_stopped n)

  -- For any record that decodes and any configured sizes, there is a run in which the record is marked
  -- and its trade reaches no sink, whatever follows: it was enqueued, and then the context was
  -- cancelled and every worker stopped.
  pub marked_never_published :
      (size buffer : ℤ) (rec : Record) (event : TradeEvent)
      → decode rec.value ≡ some event
      → let s =
          run mul metadata decode
            (handed_over rec (size_or default_pool_size size))
            (new_processor size buffer) in
        (s.marked ≡ rec ∷ [])
        × ((more : List Action) (k : Sink)
            → sent (chan k (run mul metadata decode more s).fan) ≡ [])
  unfolding new_processor new_worker_pool
  marked_never_published size buffer rec event e =
      let n = size_or default_pool_size size in
      let fan = new_fan_out buffer in
      let reached =
        run-handed_over rec event n fan (stop_all n) e (size_or-pos 99 size)
        ∙ ap (λ ws. run mul metadata decode (stop_all n) (cut_off rec event n fan ws))
            (sym (append-nil (replicate n idle)))
        ∙ run-stop_all rec event n fan n 0 in
      rw reached (
        refl,
        λ more k.
            stopped_sends_nothing (cut_off rec event n fan (replicate (n + 0) stopped)) more k
              (All-replicate_stopped (n + 0))
            ∙ sent-new k buffer,
      )
