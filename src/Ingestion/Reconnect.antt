-- ===== src/Ingestion/Reconnect.antt =====
-- services/ingestion-service/internal/reconnect.go: runSymbol under retry.WithBackoff.
use trade_pulse.Prelude.{
  ◌≡◌, refl, ap, ◌∙◌, sym, ◌++◌, ◌||◌, Bool, true, false, List, [], ◌∷◌, map, Option, some, ◌⊎◌,
  inl, inr, if◌then◌else◌, Bool-cases,
}
use mathlib.Core.List.{append_assoc, append-nil}
use trade_pulse.Text.{Text}
use trade_pulse.Machine.{Float64, Duration}
use trade_pulse.Table.{lookup, lookup-insert_self}
use trade_pulse.Json.{Codec}
use trade_pulse.Retry.{Backoff, Round, new_backoff, next, observe, with_backoff, with_backoff_from}
use trade_pulse.Ingestion.Publisher.{Publisher, Produced}
use trade_pulse.Ingestion.WsHealth.{WsHealth, set_connected}
use trade_pulse.Ingestion.Worker.{Connection, run_symbol}
use trade_pulse.Ingestion.Worker.Stream.{stream_records, read_loop-produced}

-- A round of the loop, and what the dial of its session gives.
pub record Attempt : Type 0 where
  pub round : Round
  pub dialled : Text ⊎ Connection

pub record Reconnected : Type 0 where
  pub publisher : Publisher
  pub health : WsHealth
  pub delays : List Duration
  pub returned : Bool

module _ (c : Codec) (parse : Text → Option Float64) (symbol : Text) where
  -- The loop of WithBackoff with the session as its work.
  unfoldable pub reconnect_from : List Attempt → Backoff → Publisher → WsHealth → Reconnected
  reconnect_from [] b p h = record { publisher = p; health = h; delays = []; returned = false }
  reconnect_from (a ∷ attempts) b p h =
      let s = run_symbol c parse symbol a.dialled p h in
      let (delay, b') = next a.round.rng (observe a.round.uptime b) in
      let rest = reconnect_from attempts b' s.publisher s.health in
      if a.round.cancelled_at_work
      then record { publisher = s.publisher; health = s.health; delays = []; returned = true }
      else if a.round.cancelled_at_wait
      then record {
        publisher = s.publisher;
        health = s.health;
        delays = delay ∷ [];
        returned = true;
      }
      else record rest { delays = delay ∷ rest.delays }

  unfoldable pub run_symbol_with_reconnect : List Attempt → Publisher → WsHealth → Reconnected
  unfolding reconnect_from
  run_symbol_with_reconnect attempts p h = reconnect_from attempts new_backoff p h

  abbrev pub session_records : Text ⊎ Connection → List Produced
  session_records (inl e) = []
  session_records (inr conn) = stream_records c parse conn.messages

  -- The records of the sessions up to the one after which the context is cancelled.
  abbrev pub all_records : List Attempt → List Produced
  all_records [] = []
  all_records (a ∷ attempts) =
      session_records a.dialled
      ++ (if a.round.cancelled_at_work || a.round.cancelled_at_wait
          then []
          else all_records attempts)

  session-produced :
      (d : Text ⊎ Connection) (p : Publisher) (h : WsHealth)
      → (run_symbol c parse symbol d p h).publisher.produced ≡ p.produced ++ session_records d
  unfolding run_symbol
  session-produced (inl e) p h = sym (append-nil p.produced)
  session-produced (inr conn) p h = read_loop-produced c parse conn.messages p

  session-health :
      (d : Text ⊎ Connection) (p : Publisher) (h : WsHealth)
      → lookup symbol h ≡ some false
      → lookup symbol (run_symbol c parse symbol d p h).health ≡ some false
  unfolding run_symbol
  session-health (inl e) p h k = k
  session-health (inr conn) p h k =
      unfold set_connected in lookup-insert_self symbol false (set_connected symbol true h)

  abbrev Streams : List Attempt → Backoff → Publisher → Reconnected → Type 0
  Streams attempts b p r =
      (r.publisher.produced ≡ p.produced ++ all_records attempts)
      × (lookup symbol r.health ≡ some false)
      × ((r.delays, r.returned) ≡ with_backoff_from (map (λ (a : Attempt). a.round) attempts) b)

  reconnect_from-Streams :
      (attempts : List Attempt) (b : Backoff) (p : Publisher) (h : WsHealth)
      → lookup symbol h ≡ some false
      → Streams attempts b p (reconnect_from attempts b p h)
  unfolding reconnect_from with_backoff_from
  reconnect_from-Streams [] b p h k = (sym (append-nil p.produced), k, refl)
  reconnect_from-Streams (a ∷ attempts) b p h k =
      let s = run_symbol c parse symbol a.dialled p h in
      let made = session-produced a.dialled p h in
      let down = session-health a.dialled p h k in
      let (produced, after, drawn) =
        reconnect_from-Streams attempts (next a.round.rng (observe a.round.uptime b)).1 s.publisher
          s.health down in
      elim (Bool-cases a.round.cancelled_at_work) [
        | inl e ↦ rw e (
          made ∙ ap (λ l. p.produced ++ l) (sym (append-nil (session_records a.dialled))),
          down,
          refl,
        )
        | inr e ↦ elim (Bool-cases a.round.cancelled_at_wait) [
          | inl f ↦
              rw (e, f)
                (
                  made ∙ ap (λ l. p.produced ++ l) (sym (append-nil (session_records a.dialled))),
                  down,
                  refl,
                )
          | inr f ↦
              rw (e, f)
                (
                  produced
                      ∙ ap (λ l. l ++ all_records attempts) made
                      ∙ append_assoc p.produced (session_records a.dialled) (all_records attempts),
                  after,
                  ap
                      (λ (x : List Duration × Bool).
                        ((next a.round.rng (observe a.round.uptime b)).0 ∷ x.0, x.1))
                      drawn,
                )
        ]
      ]

  -- However the sessions of a symbol go, until the context is cancelled: what reaches Kafka is the
  -- records of the streams of all of them, one session after the other; the symbol, down at the start,
  -- is reported as down after each; and the delays between them and the return are those of
  -- WithBackoff.
  pub run_symbol_with_reconnect-streams :
      (attempts : List Attempt) (p : Publisher) (h : WsHealth)
      → lookup symbol h ≡ some false
      → let r = run_symbol_with_reconnect attempts p h in
        (r.publisher.produced ≡ p.produced ++ all_records attempts)
        × (lookup symbol r.health ≡ some false)
        × ((r.delays, r.returned) ≡ with_backoff (map (λ (a : Attempt). a.round) attempts))
  unfolding run_symbol_with_reconnect with_backoff
  run_symbol_with_reconnect-streams attempts p h k =
      reconnect_from-Streams attempts new_backoff p h k
