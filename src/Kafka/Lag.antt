-- ===== src/Kafka/Lag.antt =====
-- shared/kafka/lag.go: LagReader. The admin client's answer is an argument: kadm gives, for each
-- group, its state, its members and, for each topic, a map from partitions to lags.
pub mod Order
use trade_pulse.Prelude.{
  ℕ, ◌≡◌, Bool, true, false, ◌&&◌, ◌||◌, List, [], ◌∷◌, ◌++◌, Option, none, some, ltb, ◌==◌, length,
  if◌then◌else◌,
}
use trade_pulse.Prelude.Int.{ℤ, pos, ltb_ℤ}
use trade_pulse.Machine.{add64}
use trade_pulse.Text.{Text, is_empty}
use trade_pulse.Table.{Table, lookup}
use trade_pulse.Sorting.{sort_by}

pub record PartitionLag : Type 0 where
  pub partition : ℕ
  pub lag : ℤ
  pub error : Option Text

pub record ConsumerLag : Type 0 where
  pub group : Text
  pub topic : Text
  pub state : Text
  pub members : ℕ
  pub total : ℤ
  pub partitions : List PartitionLag

abbrev pub zero_lag : ConsumerLag
zero_lag = record {
  group = [];
  topic = [];
  state = [];
  members = 0;
  total = pos 0;
  partitions = [];
}

unfoldable pub is_stalled : ConsumerLag → Bool
is_stalled l = l.members == 0 && ltb_ℤ (pos 0) l.total

-- kadm's GroupMemberLag, as far as it is read: a lag, or -1 and an error.
pub record MemberLag : Type 0 where
  pub lag : ℤ
  pub err : Option Text

-- kadm's DescribedGroupLag; the map from partitions to lags is a list in the order of iteration.
pub record Described : Type 0 where
  pub error : Option Text
  pub state : Text
  pub members : List Text
  pub lag : Table (List (ℕ × MemberLag))

pub data LagError : Type 0 where
  not_configured : LagError
  admin : Text → LagError
  group_not_found : Text → LagError
  describe : Text → Text → LagError

-- NewLagReader refuses what it cannot read.
pub data ReaderError : Type 0 where
  no_broker group_and_topic_required : ReaderError
  new_client : Text → ReaderError

pub record LagReader : Type 0 where
  pub group : Text
  pub topic : Text

-- `client` is the error of kgo.NewClient.
unfoldable pub new_lag_reader :
    List Text → Text → Text → Option Text → Option ReaderError × Option LagReader
new_lag_reader [] group topic client = (some no_broker, none)
new_lag_reader (b ∷ bs) group topic client =
    if is_empty group || is_empty topic
    then (some group_and_topic_required, none)
    else elim client [
      | none ↦ (none, some (record { group = group; topic = topic }))
      | some e ↦ (some (new_client e), none)
    ]

abbrev pub entry_of : ℕ × MemberLag → PartitionLag
entry_of (partition, member) = record {
  partition = partition;
  lag = member.lag;
  error = member.err;
}

abbrev pub add_lag : Option Text → ℤ → ℤ → ℤ
add_lag none total lag = add64 total lag
add_lag (some e) total lag = total

-- The loop over the partitions: the running total, and the entries in the order of iteration.
unfoldable pub collect : ℤ → List PartitionLag → List (ℕ × MemberLag) → ℤ × List PartitionLag
collect total entries [] = (total, entries)
collect total entries ((partition, member) ∷ rest) =
    collect (add_lag member.err total member.lag) (entries ++ entry_of (partition, member) ∷ [])
      rest

abbrev pub before : PartitionLag → PartitionLag → Bool
before a b = ltb a.partition b.partition

abbrev pub or_empty {ℓ} : {A : Type ℓ} → Option (List A) → List A
or_empty none = []
or_empty (some xs) = xs

unfoldable pub lag_of : LagReader → Described → ConsumerLag
unfolding collect
lag_of l described =
    let (total, entries) = collect (pos 0) [] (or_empty (lookup l.topic described.lag)) in
    record {
      group = l.group;
      topic = l.topic;
      state = described.state;
      members = length described.members;
      total = total;
      partitions = sort_by before entries;
    }

pub data Result {ℓ} (A : Type ℓ) : Type ℓ where
  ok : A → Result A
  err : LagError → Result A

abbrev pub described_lag : LagReader → Described → Option Text → Result ConsumerLag
described_lag l described none = ok (lag_of l described)
described_lag l described (some e) = err (describe l.group e)

abbrev pub found_lag : LagReader → Option Described → Result ConsumerLag
found_lag l none = err (group_not_found l.group)
found_lag l (some described) = described_lag l described described.error

-- The answer of `admin.Lag`: its error, or a described group for each name.
pub data Answer : Type 0 where
  failed : Text → Answer
  groups : Table Described → Answer

abbrev pub answered_lag : LagReader → Answer → Result ConsumerLag
answered_lag l (failed e) = err (admin e)
answered_lag l (groups lags) = found_lag l (lookup l.group lags)

-- `none` is a nil reader, or one with no admin client.
unfoldable pub read_lag : Option LagReader → Answer → Result ConsumerLag
unfolding lag_of
read_lag none answer = err not_configured
read_lag (some l) answer = answered_lag l answer
