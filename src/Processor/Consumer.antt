-- ===== src/Processor/Consumer.antt =====
-- services/processor-service/internal/consumer.go. The Kafka client hands over batches of records
-- and takes the marks of the records whose offsets may be committed; the marks stand here in the
-- order of the calls. Fetch errors are only logged.
pub mod Marks
use trade_pulse.Prelude.{
  ℕ, suc, ◌*◌, ◌⊎◌, inl, inr, Bool, true, false, List, [], ◌∷◌, ◌++◌, Option, none, some,
  if◌then◌else◌,
}
use trade_pulse.Prelude.Int.{ℤ, pos, ltb_ℤ}
use trade_pulse.Machine.{Duration, second, leb_ℤ}
use trade_pulse.Text.{Text}
use trade_pulse.Domain.{TradeEvent}
use trade_pulse.Domain.Keys.{consumer_group_processor, topic_trades_raw}
use trade_pulse.Processor.Handler.{Handler}

-- The fields of kgo.Record that matter here.
pub record Record : Type 0 where
  pub partition : ℕ
  pub offset : ℕ
  pub key : Text
  pub value : Text

-- The options of NewConsumer: the offset that a fresh group starts from, and whether the auto-commit
-- is restricted to marked records.
pub record ConsumerOptions : Type 0 where
  pub seed_brokers : List Text
  pub group : Text
  pub topic : Text
  pub reset_to_start : Bool
  pub auto_commit_marks : Bool

pub data NewError : Type 0 where
  no_broker : NewError
  new_client : Text → NewError

abbrev pub made_consumer : ConsumerOptions → Option Text → NewError ⊎ ConsumerOptions
made_consumer options none = inr options
made_consumer options (some e) = inl (new_client e)

-- NewConsumer, with what kgo.NewClient gives for its options: `none`, or an error.
unfoldable pub new_consumer :
    List Text → (ConsumerOptions → Option Text) → NewError ⊎ ConsumerOptions
new_consumer [] client = inl no_broker
new_consumer (b ∷ brokers) client =
    let options : ConsumerOptions = record {
      seed_brokers = b ∷ brokers;
      group = consumer_group_processor;
      topic = topic_trades_raw;
      reset_to_start = true;
      auto_commit_marks = true;
    } in
    made_consumer options (client options)

-- What one PollFetches brings, and whether ctx was cancelled by then.
pub record Poll : Type 0 where
  pub cancelled : Bool
  pub records : List Record

module _ {ℓ κ} {S : Type ℓ} {E : Type κ} (decode : Text → Option TradeEvent)
    (handle : Handler S E) where
  abbrev pub Run : Type ℓ
  Run = record { handler : S; marked : List Record }

  -- MarkCommitRecords, unless the handler returned an error.
  abbrev pub mark_if_handled : List Record → Record → S × Option E → Run
  mark_if_handled marked rec (s, none) = record { handler = s; marked = marked ++ rec ∷ [] }
  mark_if_handled marked rec (s, some e) = record { handler = s; marked = marked }

  -- json.Unmarshal fails or gives an event.
  abbrev pub dispatch_decoded : Option TradeEvent → Record → Run → Run
  dispatch_decoded none rec r = record { handler = r.handler; marked = r.marked ++ rec ∷ [] }
  dispatch_decoded (some event) rec r = mark_if_handled r.marked rec (handle event r.handler)

  unfoldable pub dispatch : Record → Run → Run
  dispatch rec r = dispatch_decoded (decode rec.value) rec r

  -- EachRecord
  unfoldable pub dispatch_all : List Record → Run → Run
  dispatch_all [] r = r
  dispatch_all (rec ∷ recs) r = dispatch_all recs (dispatch rec r)

  -- The loop of Run over the polls so far; `some` when it has returned nil.
  unfoldable pub run : List Poll → Run → Run × Bool
  run [] r = (r, false)
  run (p ∷ ps) r =
      let rest = run ps (dispatch_all p.records r) in if p.cancelled then (r, true) else rest

-- Check: the error of the ping, or none left of the context's time.
pub data CheckError {ℓ} (E : Type ℓ) : Type ℓ where
  no_time_remaining : CheckError E
  ping : E → CheckError E

abbrev pub metadata_timeout : Duration
metadata_timeout = pos (2 * second)

-- `remaining` is time.Until the deadline, if ctx has one.
unfoldable pub check_timeout : Option Duration → Duration
check_timeout none = metadata_timeout
check_timeout (some remaining) =
    if ltb_ℤ remaining metadata_timeout then remaining else metadata_timeout

abbrev ping_result {ℓ} : {E : Type ℓ} → Option E → Option (CheckError E)
ping_result none = none
ping_result (some e) = some (ping e)

-- `client.Ping` under a timeout.
unfoldable pub check {ℓ} :
    {E : Type ℓ} → (Duration → Option E) → Option Duration → Option (CheckError E)
unfolding check_timeout
check ping_within remaining =
    if leb_ℤ (check_timeout remaining) (pos 0)
    then some no_time_remaining
    else ping_result (ping_within (check_timeout remaining))
