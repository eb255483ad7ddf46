-- ===== src/Json.antt =====
-- encoding/json as the source uses it: values as trees, structs matched field by field. The text of
-- a value, a number and a time is a codec's, whose laws are those that Go documents.
use Prim.Native.Nat.{ℕ}
use trade_pulse.Prelude.{
  ◌*◌, ◌-◌, ◌≡◌, Bool, true, ◌&&◌, List, [], ◌∷◌, map, Option, none, some, leb, ltb, ◌==◌,
  if◌then◌else◌,
}
use trade_pulse.Prelude.Int.{ℤ}
use trade_pulse.Text.{Text, text_eq}
use trade_pulse.Machine.{Float64, Time, IsInt64, is_finite, second}

-- A number keeps its literal.
mutual
  pub data Json : Type 0 where
    null : Json
    bool : Bool → Json
    num : Text → Json
    str : Text → Json
    arr : Items → Json
    obj : Fields → Json

  pub data Items : Type 0 where
    nil : Items
    cons : Json → Items → Items

  pub data Fields : Type 0 where
    end : Fields
    field : Text → Json → Fields → Fields

pub record Codec : Type 0 where
  pub print : Json → Text
  pub parse : Text → Option Json
  pub format_float : Float64 → Text
  pub parse_float : Text → Option Float64
  pub format_int : ℤ → Text
  pub parse_int : Text → Option ℤ
  pub format_time : Time → Text
  pub parse_time : Text → Option Time

-- time.Time refuses to be marshalled from year 10000 on.
unfoldable pub is_json_time : Time → Bool
is_json_time t = ltb t (315537897600 * second)

-- What is printed reads back: a value, a finite number in its shortest form, an int64, and a time
-- in RFC 3339 with nanoseconds.
pub record IsCodec (c : Codec) : Type 0 where
  pub parse-print : (j : Json) → c.parse (c.print j) ≡ some j
  pub parse-format_float :
      (x : Float64) → is_finite x ≡ true → c.parse_float (c.format_float x) ≡ some x
  pub parse-format_int : (z : ℤ) → IsInt64 z → c.parse_int (c.format_int z) ≡ some z
  pub parse-format_time :
      (t : Time) → is_json_time t ≡ true → c.parse_time (c.format_time t) ≡ some t

infixl 5 ◌>>=◌
abbrev pub ◌>>=◌ {ℓ κ} : {A : Type ℓ} {B : Type κ} → Option A → (A → Option B) → Option B
none >>= f = none
some a >>= f = f a

-- Case folding of an object's key. A code point beyond ASCII folds into ASCII only for the long s
-- and the Kelvin sign; how the others fold decides nothing against the ASCII names of the structs.
unfoldable pub fold_rune : ℕ → ℕ
fold_rune c =
    if leb b'a' c && leb c b'z'
    then c - 32
    else if c == 0x17f
    then b'S'
    else if c == 0x212a
    then b'K'
    else c

module _ {ℓ} {K : Type ℓ} where
  unfoldable pub find_exact : Text → List (Text × K) → Option K
  find_exact key [] = none
  find_exact key ((name, k) ∷ names) = if text_eq name key then some k else find_exact key names

  unfoldable pub find_folded : Text → List (Text × K) → Option K
  unfolding fold_rune
  find_folded key [] = none
  find_folded key ((name, k) ∷ names) =
      if text_eq (map fold_rune name) (map fold_rune key) then some k else find_folded key names

  abbrev or_folded : Option K → Option K → Option K
  or_folded none folded = folded
  or_folded (some k) folded = some k

  -- The field of a struct that an object's key sets: the exact name first.
  unfoldable pub find_field : List (Text × K) → Text → Option K
  unfolding find_exact find_folded
  find_field names key = or_folded (find_exact key names) (find_folded key names)

module _ {ℓ κ} {K : Type ℓ} {A : Type κ} (names : List (Text × K))
    (assign : K → Json → A → Option A) where
  -- An unknown key is skipped.
  abbrev assign_found : Option K → Json → A → Option A
  assign_found none j a = some a
  assign_found (some k) j a = assign k j a

  unfoldable pub decode_fields : Fields → A → Option A
  unfolding find_field
  decode_fields end a = some a
  decode_fields (field key j rest) a =
      assign_found (find_field names key) j a >>= λ b. decode_fields rest b

  -- A struct is read from an object, over the value that is there; null leaves it alone.
  abbrev pub decode_struct : Json → A → Option A
  decode_struct (obj fields) a = decode_fields fields a
  decode_struct null a = some a
  decode_struct _ a = none

module _ (c : Codec) where
  abbrev pub read_text : Json → Text → Option Text
  read_text (str s) old = some s
  read_text null old = some old
  read_text _ old = none

  abbrev pub read_bool : Json → Bool → Option Bool
  read_bool (bool b) old = some b
  read_bool null old = some old
  read_bool _ old = none

  abbrev pub read_float : Json → Float64 → Option Float64
  read_float (num literal) old = c.parse_float literal
  read_float null old = some old
  read_float _ old = none

  abbrev pub read_int : Json → ℤ → Option ℤ
  read_int (num literal) old = c.parse_int literal
  read_int null old = some old
  read_int _ old = none

  abbrev pub read_time : Json → Time → Option Time
  read_time (str s) old = c.parse_time s
  read_time null old = some old
  read_time _ old = none
