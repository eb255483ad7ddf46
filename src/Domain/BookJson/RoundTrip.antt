-- ===== src/Domain/BookJson/RoundTrip.antt =====
-- A book that is marshalled is read back.
use trade_pulse.Prelude.{◌≡◌, refl, true, List, [], ◌∷◌, some, arith}
use trade_pulse.Text.{text_eq}
use trade_pulse.Machine.{is_finite}
use trade_pulse.Domain.{PriceLevel, OrderBook, zero_book}
use trade_pulse.Json.{Codec, IsCodec, ◌>>=◌, decode_fields, decode_struct}
use trade_pulse.Domain.BookJson.{
  level_keys, book_keys, assign_level, zero_level, read_levels, read_slice, assign_book,
  unmarshal_book, level_json, level_items, slice_json, book_json, are_finite, is_marshallable,
  marshal_book,
}

module _ (c : Codec) (laws : IsCodec c) where
  level_read :
      (l : PriceLevel)
      → is_finite l.price ≡ true
      → is_finite l.quantity ≡ true
      → decode_struct level_keys (assign_level c) (level_json c l) zero_level ≡ some l
  unfolding decode_fields text_eq assign_level
  level_read l p q = rw (laws.parse-format_float l.price p, laws.parse-format_float l.quantity q)

  levels_read :
      (ls : List PriceLevel) → are_finite c ls ≡ true → read_levels c (level_items c ls) ≡ some ls
  unfolding read_levels level_items
  levels_read [] h = refl
  levels_read (l ∷ ls) h =
      rw (level_read l (ground arith) (ground arith), levels_read ls (ground arith))

  slice_read :
      (ls old : List PriceLevel)
      → are_finite c ls ≡ true
      → read_slice c (slice_json c ls) old ≡ some ls
  unfolding slice_json
  slice_read [] old h = refl
  slice_read (l ∷ ls) old h = levels_read (l ∷ ls) h

  book_read :
      (b : OrderBook)
      → is_marshallable c b ≡ true
      → decode_struct book_keys (assign_book c) (book_json c b) zero_book ≡ some b
  unfolding decode_fields text_eq assign_book book_json
  book_read b h = rw (
    slice_read b.bids [] (ground arith),
    slice_read b.asks [] (ground arith),
    laws.parse-format_time b.last_update (ground arith),
  )

  -- A book whose numbers are finite and whose time is before year 10000 reads back as it was. (The
  -- codec reads back what it prints.)
  pub unmarshal-marshal_book :
      (b : OrderBook)
      → is_marshallable c b ≡ true
      → (marshal_book c b >>= unmarshal_book c) ≡ some b
  unfolding marshal_book unmarshal_book
  unmarshal-marshal_book b h = rw (h, laws.parse-print (book_json c b)) (book_read b h)
