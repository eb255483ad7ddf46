-- ===== src/Ingestion/Workers/Interleaved.antt =====
-- Whatever the interleaving of the workers, each works as if it were alone.
use mathlib.Core.List.{append_assoc, append-nil}
use trade_pulse.Prelude.{
  ◌≡◌, refl, sym, ap, ◌∙◌, ◌++◌, Bool, true, false, List, [], ◌∷◌, map, Option, some, arith, inl,
  inr, Bool-cases, if◌then◌else◌,
}
use trade_pulse.Text.{Text, text_eq}
use trade_pulse.Machine.{Float64, Time}
use trade_pulse.Json.{Codec}
use trade_pulse.Table.{lookup, lookup-insert}
use trade_pulse.Ingestion.Normalizer.{normalize_trade}
use trade_pulse.Ingestion.Publisher.{Produced}
use trade_pulse.Ingestion.WsHealth.{set_connected}
use trade_pulse.Ingestion.Worker.Stream.{records_of, stream_records, forward-produced}
use trade_pulse.Ingestion.Workers.{Ingest, Turn, connects, reads, disconnects, step, run}

-- The messages that a worker has read.
unfoldable pub messages_of : Text → List (Text × Turn) → List (Text × Time)
messages_of w [] = []
messages_of w ((v, reads raw now) ∷ turns) =
    if text_eq v w then (raw, now) ∷ messages_of w turns else messages_of w turns
messages_of w ((v, connects) ∷ turns) = messages_of w turns
messages_of w ((v, disconnects) ∷ turns) = messages_of w turns

-- Whether a worker is connected after its turns, by its last one that says so.
unfoldable pub connected_after : Text → List (Text × Turn) → Option Bool → Option Bool
connected_after w [] old = old
connected_after w ((v, reads raw now) ∷ turns) old = connected_after w turns old
connected_after w ((v, connects) ∷ turns) old =
    connected_after w turns (if text_eq v w then some true else old)
connected_after w ((v, disconnects) ∷ turns) old =
    connected_after w turns (if text_eq v w then some false else old)

-- Records with the worker that each comes from.
abbrev pub made_by : Text → List (Text × Produced) → List Produced
made_by w [] = []
made_by w ((v, p) ∷ log) = if text_eq v w then p ∷ made_by w log else made_by w log

abbrev pub all_made : List (Text × Produced) → List Produced
all_made log = map (λ (x : Text × Produced). x.1) log

abbrev tagged : Text → List Produced → List (Text × Produced)
tagged v ps = map (λ (p : Produced). (v, p)) ps

made_by-tagged :
    (v w : Text) (ps : List Produced) (log : List (Text × Produced))
    → made_by w (tagged v ps ++ log) ≡ (if text_eq v w then ps ++ made_by w log else made_by w log)
made_by-tagged v w [] log = ground arith
made_by-tagged v w (p ∷ ps) log = ground (arith, made_by-tagged v w ps log)

all_made-tagged :
    (v : Text) (ps : List Produced) (log : List (Text × Produced))
    → all_made (tagged v ps ++ log) ≡ ps ++ all_made log
all_made-tagged v [] log = refl
all_made-tagged v (p ∷ ps) log = ap (◌∷◌ p) (all_made-tagged v ps log)

module _ (c : Codec) (parse : Text → Option Float64) where
  log_of : List (Text × Turn) → List (Text × Produced)
  log_of [] = []
  log_of ((v, reads raw now) ∷ turns) =
      tagged v (records_of c parse (normalize_trade c parse raw now)) ++ log_of turns
  log_of ((v, connects) ∷ turns) = log_of turns
  log_of ((v, disconnects) ∷ turns) = log_of turns

  run-all_made :
      (turns : List (Text × Turn)) (s : Ingest)
      → (run c parse turns s).publisher.produced ≡ s.publisher.produced ++ all_made (log_of turns)
  unfolding run step log_of
  run-all_made [] s = sym (append-nil s.publisher.produced)
  run-all_made ((v, reads raw now) ∷ turns) s =
      let n = normalize_trade c parse raw now in
      run-all_made turns (step c parse (v, reads raw now) s)
      ∙ ap (λ l. l ++ all_made (log_of turns)) (forward-produced c parse n s.publisher)
      ∙ append_assoc s.publisher.produced (records_of c parse n) (all_made (log_of turns))
      ∙ ap (λ l. s.publisher.produced ++ l)
          (sym (all_made-tagged v (records_of c parse n) (log_of turns)))
  run-all_made ((v, connects) ∷ turns) s = run-all_made turns (step c parse (v, connects) s)
  run-all_made ((v, disconnects) ∷ turns) s = run-all_made turns (step c parse (v, disconnects) s)

  log_of-made_by :
      (w : Text) (turns : List (Text × Turn))
      → made_by w (log_of turns) ≡ stream_records c parse (messages_of w turns)
  unfolding log_of messages_of
  log_of-made_by w [] = refl
  log_of-made_by w ((v, reads raw now) ∷ turns) =
      made_by-tagged v w (records_of c parse (normalize_trade c parse raw now)) (log_of turns)
      ∙ elim (Bool-cases (text_eq v w)) [
        | inl e ↦ rw e (
            ap (λ l. records_of c parse (normalize_trade c parse raw now) ++ l)
              (log_of-made_by w turns))
        | inr e ↦ rw e (log_of-made_by w turns)
      ]
  log_of-made_by w ((v, connects) ∷ turns) = log_of-made_by w turns
  log_of-made_by w ((v, disconnects) ∷ turns) = log_of-made_by w turns

  run-connected :
      (w : Text) (turns : List (Text × Turn)) (s : Ingest)
      → lookup w (run c parse turns s).health ≡ connected_after w turns (lookup w s.health)
  unfolding run step connected_after set_connected
  run-connected w [] s = refl
  run-connected w ((v, reads raw now) ∷ turns) s =
      run-connected w turns (step c parse (v, reads raw now) s)
  run-connected w ((v, connects) ∷ turns) s =
      run-connected w turns (step c parse (v, connects) s)
      ∙ ap (connected_after w turns) (lookup-insert v w true s.health)
  run-connected w ((v, disconnects) ∷ turns) s =
      run-connected w turns (step c parse (v, disconnects) s)
      ∙ ap (connected_after w turns) (lookup-insert v w false s.health)

  -- Whatever the interleaving of the workers: what is handed to Kafka can be told apart by worker so
  -- that the part of each is the records of the messages that it read, in their order; and each
  -- symbol is reported as its worker's last change of the connection says.
  pub run-interleaved :
      (turns : List (Text × Turn)) (s : Ingest)
      → ((log : List (Text × Produced)) × ((run c parse turns s).publisher.produced
            ≡ s.publisher.produced ++ all_made log)
          × ((w : Text) → made_by w log ≡ stream_records c parse (messages_of w turns)))
        × ((w : Text)
            → lookup w (run c parse turns s).health ≡ connected_after w turns (lookup w s.health))
  run-interleaved turns s = (
    (log_of turns, run-all_made turns s, λ w. log_of-made_by w turns),
    λ w. run-connected w turns s,
  )
