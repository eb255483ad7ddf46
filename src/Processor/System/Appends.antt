-- ===== src/Processor/System/Appends.antt =====
-- What the code of services/processor-service does over one list of trades or of actions and then
-- another: the book loop, the Redis writer's last text, and the pipeline.
use trade_pulse.Prelude.{◌≡◌, refl, sym, ap, ◌∙◌, ◌++◌, List, [], ◌∷◌, map, Option, some}
use trade_pulse.Text.{Text}
use trade_pulse.Machine.{Float64}
use trade_pulse.Channel.{Chan, receive}
use trade_pulse.Json.{Codec}
use trade_pulse.Domain.{TradeEvent}
use trade_pulse.Processor.Enricher.{Provider}
use trade_pulse.Processor.FanOut.{Sink, chan, set_chan}
use trade_pulse.Processor.OrderBook as Books
use trade_pulse.Processor.OrderBook.{Store, trade, apply}
use trade_pulse.Processor.RedisWriter.Latest.{text_after, text_after-cons}
use trade_pulse.Processor.OrderBook.Replay.{latest}
use trade_pulse.Processor.Pipeline
use trade_pulse.Processor.Pipeline.{
  Processor, Action, polls, visits, submits, gives_up, publishes, stops, receives, cancels,
}
use trade_pulse.Processor.System.{upstream_step}

pub books_run-append :
    (s : Store) (es : List TradeEvent) (e : TradeEvent)
    → Books.run s (map trade (es ++ e ∷ [])) ≡ apply (Books.run s (map trade es)) e
unfolding Books.run
books_run-append s [] e = refl
books_run-append s (x ∷ es) e = books_run-append (apply s x) es e

pub text_after-append :
    (c : Codec) (symbol : Text) (es : List TradeEvent) (e : TradeEvent) (old : Option Text)
    → text_after c symbol (es ++ e ∷ []) old
      ≡ text_after c symbol (e ∷ []) (text_after c symbol es old)
text_after-append c symbol [] e old = unfold text_after latest in refl
text_after-append c symbol (x ∷ es) e old =
    text_after-cons c symbol x (es ++ e ∷ []) old
    ∙ text_after-append c symbol es e (text_after c symbol (x ∷ []) old)
    ∙ ap (text_after c symbol (e ∷ [])) (sym (text_after-cons c symbol x es old))

module _ (mul : Float64 → Float64 → Float64) (metadata : Provider)
    (decode : Text → Option TradeEvent) where
  pub pipeline_run-append :
      (xs ys : List Action) (p : Processor)
      → Pipeline.run mul metadata decode (xs ++ ys) p
        ≡ Pipeline.run mul metadata decode ys (Pipeline.run mul metadata decode xs p)
  unfolding Pipeline.run
  pipeline_run-append [] ys p = refl
  pipeline_run-append (x ∷ xs) ys p =
      pipeline_run-append xs ys (Pipeline.step mul metadata decode x p)

  -- The actions of the pipeline that a step of it in the system amounts to.
  pub upstream_actions :
      (a : Action) (p : Processor)
      → (actions : List Action) × (upstream_step mul metadata decode a p
          ≡ Pipeline.run mul metadata decode actions p)
  unfolding Pipeline.run
  upstream_actions (polls recs) p = (polls recs ∷ [], refl)
  upstream_actions visits p = (visits ∷ [], refl)
  upstream_actions submits p = (submits ∷ [], refl)
  upstream_actions gives_up p = (gives_up ∷ [], refl)
  upstream_actions (Pipeline.takes i) p = (Pipeline.takes i ∷ [], refl)
  upstream_actions (publishes i c) p = (publishes i c ∷ [], refl)
  upstream_actions (stops i) p = (stops i ∷ [], refl)
  upstream_actions (receives k) p = ([], refl)
  upstream_actions cancels p = (cancels ∷ [], refl)

  pub receive_action :
      (k : Sink) (p : Processor) (from : Chan TradeEvent) (event : TradeEvent)
      → receive (chan k p.fan) ≡ some (event, from)
      → record p { fan = set_chan k from p.fan }
        ≡ Pipeline.run mul metadata decode (receives k ∷ []) p
  unfolding Pipeline.run Pipeline.step
  receive_action k p from event e = rw e refl
