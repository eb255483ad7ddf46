-- ===== src/Domain/BookJson.antt =====
-- The JSON of shared/domain's OrderBook, as the struct tags say. A nil slice is null.
pub mod RoundTrip
use trade_pulse.Prelude.{Bool, true, false, ◌&&◌, List, [], ◌∷◌, Option, none, some, if◌then◌else◌}
use trade_pulse.Text.{Text, codes}
use trade_pulse.Machine.{Float64, is_finite, float_zero}
use trade_pulse.Domain.{PriceLevel, OrderBook, zero_book}
use trade_pulse.Json.{
  Json, null, num, str, arr, obj, Items, nil, cons, Fields, end, field, Codec, ◌>>=◌, is_json_time,
  decode_struct, read_text, read_float, read_time,
}

pub data LevelKey : Type 0 where
  price quantity : LevelKey

abbrev pub level_keys : List (Text × LevelKey)
level_keys = (codes "price", price) ∷ (codes "quantity", quantity) ∷ []

pub data BookKey : Type 0 where
  symbol bids asks last_update : BookKey

abbrev pub book_keys : List (Text × BookKey)
book_keys =
    (codes "symbol", symbol)
    ∷ (codes "bids", bids)
    ∷ (codes "asks", asks)
    ∷ (codes "last_update", last_update)
    ∷ []

abbrev pub zero_level : PriceLevel
zero_level = record { price = float_zero; quantity = float_zero }

module _ (c : Codec) where
  unfoldable pub assign_level : LevelKey → Json → PriceLevel → Option PriceLevel
  assign_level price j l = read_float c j l.price >>= λ v. some (record l { price = v })
  assign_level quantity j l = read_float c j l.quantity >>= λ v. some (record l { quantity = v })

  unfoldable pub read_levels : Items → Option (List PriceLevel)
  unfolding assign_level
  read_levels nil = some []
  read_levels (cons j rest) = decode_struct level_keys assign_level j zero_level >>= λ l.
      read_levels rest >>= λ ls. some (l ∷ ls)

  abbrev pub read_slice : Json → List PriceLevel → Option (List PriceLevel)
  read_slice (arr items) old = read_levels items
  read_slice null old = some []
  read_slice _ old = none

  unfoldable pub assign_book : BookKey → Json → OrderBook → Option OrderBook
  unfolding read_levels
  assign_book symbol j b = read_text c j b.symbol >>= λ v. some (record b { symbol = v })
  assign_book bids j b = read_slice j b.bids >>= λ v. some (record b { bids = v })
  assign_book asks j b = read_slice j b.asks >>= λ v. some (record b { asks = v })
  assign_book last_update j b =
      read_time c j b.last_update >>= λ v. some (record b { last_update = v })

  -- json.Unmarshal into a zero OrderBook.
  unfoldable pub unmarshal_book : Text → Option OrderBook
  unmarshal_book raw = c.parse raw >>= λ j. decode_struct book_keys assign_book j zero_book

  abbrev pub level_json : PriceLevel → Json
  level_json l = obj (
      field (codes "price") (num (c.format_float l.price))
        (field (codes "quantity") (num (c.format_float l.quantity)) end))

  unfoldable pub level_items : List PriceLevel → Items
  level_items [] = nil
  level_items (l ∷ ls) = cons (level_json l) (level_items ls)

  unfoldable pub slice_json : List PriceLevel → Json
  unfolding level_items
  slice_json [] = null
  slice_json (l ∷ ls) = arr (level_items (l ∷ ls))

  unfoldable pub book_json : OrderBook → Json
  unfolding slice_json
  book_json b = obj (
      field (codes "symbol") (str b.symbol) (
        field (codes "bids") (slice_json b.bids) (
          field (codes "asks") (slice_json b.asks)
            (field (codes "last_update") (str (c.format_time b.last_update)) end))))

  abbrev pub are_finite : List PriceLevel → Bool
  are_finite [] = true
  are_finite (l ∷ ls) = is_finite l.price && is_finite l.quantity && are_finite ls

  abbrev pub is_marshallable : OrderBook → Bool
  is_marshallable b = are_finite b.bids && are_finite b.asks && is_json_time b.last_update

  unfoldable pub marshal_book : OrderBook → Option Text
  unfolding book_json
  marshal_book b = if is_marshallable b then some (c.print (book_json b)) else none
