-- ===== src/Processor/Pool.antt =====
-- services/processor-service/internal/pool.go: a bounded queue of jobs and the workers that take
-- them. `C` is where a worker's call of the handler stands.
use trade_pulse.Prelude.{ℕ, Bool, true, List, Option, none, some, get_elem?, set, replicate}
use trade_pulse.Prelude.Int.{ℤ}
use trade_pulse.Channel.{Chan, make, send, receive}
use trade_pulse.Domain.{TradeEvent}
use trade_pulse.Processor.FanOut.{size_or}

pub data Worker {ℓ} (C : Type ℓ) : Type ℓ where
  idle : Worker C
  busy : TradeEvent → C → Worker C
  stopped : Worker C

pub record WorkerPool {ℓ} (C : Type ℓ) : Type ℓ where
  pub jobs : Chan TradeEvent
  pub workers : List (Worker C)

abbrev pub default_pool_size : ℕ
default_pool_size = 100

-- NewWorkerPool, with the workers that Start runs.
unfoldable pub new_worker_pool {ℓ} : {C : Type ℓ} → ℤ → WorkerPool C
new_worker_pool size =
    let n = size_or default_pool_size size in record { jobs = make n; workers = replicate n idle }

module _ {ℓ} {C : Type ℓ} where
  abbrev queued : WorkerPool C → Option (Chan TradeEvent) → Option (WorkerPool C)
  queued p none = none
  queued p (some jobs) = some (record p { jobs = jobs })

  -- The send of Submit; `none` while the queue is full.
  unfoldable pub submit : TradeEvent → WorkerPool C → Option (WorkerPool C)
  submit event p = queued p (send event p.jobs)

  abbrev pub with_worker : WorkerPool C → ℕ → Worker C → WorkerPool C
  with_worker p i w = record p { workers = set p.workers i w }

  abbrev pub taken :
      (TradeEvent → C) → WorkerPool C → ℕ → Option (TradeEvent × Chan TradeEvent) → WorkerPool C
  taken start p i none = p
  taken start p i (some (event, jobs)) = record {
    jobs = jobs;
    workers = set p.workers i (busy event (start event));
  }

  -- An idle worker takes the oldest job; nothing happens where its `select` is not ready.
  abbrev pub take_by : (TradeEvent → C) → WorkerPool C → ℕ → Option (Worker C) → WorkerPool C
  take_by start p i (some idle) = taken start p i (receive p.jobs)
  take_by start p i _ = p

  unfoldable pub take : (TradeEvent → C) → ℕ → WorkerPool C → WorkerPool C
  take start i p = take_by start p i (get_elem? p.workers i)

  abbrev pub stop_by : Bool → WorkerPool C → ℕ → Option (Worker C) → WorkerPool C
  stop_by true p i (some idle) = with_worker p i stopped
  stop_by _ p i _ = p

  -- An idle worker returns once the context is cancelled.
  unfoldable pub stop : Bool → ℕ → WorkerPool C → WorkerPool C
  stop cancelled i p = stop_by cancelled p i (get_elem? p.workers i)
