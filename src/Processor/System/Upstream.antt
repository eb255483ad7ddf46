-- ===== src/Processor/System/Upstream.antt =====
-- The pipeline inside the system: it goes through a run of its own, and takes nothing off a sink.
use trade_pulse.Prelude.{
  ℕ, ◌≡◌, refl, ap, ◌∙◌, List, Option, none, some, arith, get_elem?, inl, inr, Option-cases, Bool,
}
use trade_pulse.Text.{Text}
use trade_pulse.Machine.{Float64}
use trade_pulse.Channel.{Chan, send}
use trade_pulse.Domain.{TradeEvent}
use trade_pulse.Processor.Enricher.{Provider, enrich}
use trade_pulse.Processor.FanOut.{
  FanOut, Sink, order_book, redis_writer, broadcast, chan, set_chan, Pending, Call, selecting, Case,
  accept, ctx_done, publish_step,
}
use trade_pulse.Processor.FanOut as Publishing
use trade_pulse.Processor.Pool.{Worker, idle, busy, stopped}
use trade_pulse.Processor.Pipeline
use trade_pulse.Processor.Pipeline.{
  Processor, Action, polls, visits, submits, gives_up, publishes, stops, receives, cancels,
}
use trade_pulse.Processor.Pipeline.Accounts.Sinks.{accept_inversion}
use trade_pulse.Processor.System.{upstream_step}

-- What a loop has received from its sink so far.
abbrev pub received_from : Sink → Processor → List TradeEvent
received_from k p = (chan k p.fan).received

send-received :
    (event : TradeEvent) (c d : Chan TradeEvent) → send event c ≡ some d → d.received ≡ c.received
unfolding send
send-received event c d e = ground arith

set_chan-received :
    (k j : Sink) (f : FanOut) (c : Chan TradeEvent)
    → c.received ≡ (chan j f).received
    → (chan k (set_chan j c f)).received ≡ (chan k f).received
set_chan-received order_book order_book f c e = e
set_chan-received redis_writer redis_writer f c e = e
set_chan-received broadcast broadcast f c e = e
set_chan-received order_book redis_writer f c e = refl
set_chan-received order_book broadcast f c e = refl
set_chan-received redis_writer order_book f c e = refl
set_chan-received redis_writer broadcast f c e = refl
set_chan-received broadcast order_book f c e = refl
set_chan-received broadcast redis_writer f c e = refl

publish_step-received :
    (k : Sink) (cancelled : Bool) (copy : TradeEvent) (c : Case) (q : Pending) (f : FanOut)
    (call : Call) (g : FanOut)
    → publish_step cancelled copy c (selecting q) f ≡ some (call, g)
    → (chan k g).received ≡ (chan k f).received
unfolding publish_step
publish_step-received k cancelled copy (accept j) q f call g e =
    let (c, s, h, same_call, same_fan) = accept_inversion cancelled copy j q f call g e in
    rw same_fan (set_chan-received k j f c (send-received copy (chan j f) c s))
publish_step-received k cancelled copy ctx_done q f call g e = ground arith

module _ (mul : Float64 → Float64 → Float64) (metadata : Provider)
    (decode : Text → Option TradeEvent) where
  progress-fan :
      (i : ℕ) (event : TradeEvent) (q : Pending) (p : Processor) (call : Call) (g : FanOut)
      → (Pipeline.progress mul metadata decode i event q p (some (call, g))).fan ≡ g
  progress-fan i event q p (selecting q') g = refl
  progress-fan i event q p (Publishing.returned none) g = refl
  progress-fan i event q p (Publishing.returned (some e)) g = refl

  publish_by-received :
      (k : Sink) (i : ℕ) (c : Case) (p : Processor) (w : Option (Worker Call))
      → received_from k (Pipeline.publish_by mul metadata decode i c p w) ≡ received_from k p
  publish_by-received k i c p (some (busy event (selecting q))) =
      let out = publish_step p.cancelled (enrich mul metadata event) c (selecting q) p.fan in
      elim (Option-cases out) [
        | inl e ↦ rw e refl
        | inr ((call, g), e) ↦ rw e (
            ap (λ f. (chan k f).received) (progress-fan i event q p call g)
            ∙ publish_step-received k p.cancelled (enrich mul metadata event) c q p.fan call g e)
      ]
  publish_by-received k i c p (some (busy event (Publishing.returned r))) = refl
  publish_by-received k i c p (some idle) = refl
  publish_by-received k i c p (some stopped) = refl
  publish_by-received k i c p none = refl

  pub upstream_step-received :
      (k : Sink) (a : Action) (p : Processor)
      → received_from k (upstream_step mul metadata decode a p) ≡ received_from k p
  unfolding Pipeline.step
  upstream_step-received k (polls recs) p = ground arith
  upstream_step-received k visits p = ground arith
  upstream_step-received k submits p = ground arith
  upstream_step-received k gives_up p = ground arith
  upstream_step-received k (Pipeline.takes i) p = refl
  upstream_step-received k (publishes i c) p =
      publish_by-received k i c p (get_elem? p.pool.workers i)
  upstream_step-received k (stops i) p = refl
  upstream_step-received k (receives j) p = refl
  upstream_step-received k cancels p = refl
