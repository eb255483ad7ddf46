-- ===== src/Config/Values.antt =====
-- What viper documents of the values that Unmarshal reads: the environment wins over the file and the
-- file over the defaults, AutomaticEnv looks up only the keys that one of these two has, and a value
-- for a key shadows the keys below it.
use trade_pulse.Prelude.{
  List, not, ◌&&◌, ◌||◌, is_some, ◌==◌, ◌≡◌, ◌++◌, Bool, true, false, [], ◌∷◌, Option, none, some,
  ◌⊎◌, inl, inr, ℕ, if◌then◌else◌,
}
use trade_pulse.Text.{Text, codes, is_empty, text_eq, to_upper, ascii_casing}
use trade_pulse.Table.{Table, lookup, insert}
use trade_pulse.Config.{Config, Setting, string, Decoder, Viper}
use trade_pulse.Config.Fields.{config_of}

-- What a viper knows. `replacer` is the old and the new text of the key replacer, which are one
-- character each here.
pub record View : Type 0 where
  pub defaults : Table Setting
  pub file : Table Setting
  pub prefix : Text
  pub replacer : Text × Text
  pub automatic : Bool

abbrev pub empty_view : View
empty_view = record {
  defaults = [];
  file = [];
  prefix = [];
  replacer = ([], []);
  automatic = false;
}

abbrev pub replace_rune : Text × Text → ℕ → Text
replace_rune (old, new) x = if text_eq (x ∷ []) old then new else x ∷ []

unfoldable pub replace : Text × Text → Text → Text
replace r [] = []
replace r (x ∷ s) = replace_rune r x ++ replace r s

-- The variable of a key.
unfoldable pub env_name : View → Text → Text
unfolding replace
env_name v key = replace v.replacer (to_upper ascii_casing (v.prefix ++ codes "_" ++ key))

abbrev pub or_else {ℓ} : {A : Type ℓ} → Option A → Option A → Option A
or_else none other = other
or_else (some a) other = some a

-- An empty variable counts as none.
abbrev pub from_env : Option Text → Setting → Setting
from_env none s = s
from_env (some t) s = if is_empty t then s else string t

-- The keys above a key: the parts of its path that end before a dot.
abbrev pub above_from : Text → Text → List Text
above_from above [] = []
above_from above (x ∷ s) =
    let rest = above_from (above ++ x ∷ []) s in if x == 46 then above ∷ rest else rest

unfoldable pub above : Text → List Text
above key = above_from [] key

abbrev pub is_set : Option Text → Bool
is_set none = false
is_set (some t) = not (is_empty t)

-- Whether a variable of the environment is set for a key above, or the file has a value that is no
-- table under one: either shadows what lies below.
abbrev pub env_shadows : (Text → Option Text) → View → List Text → Bool
env_shadows env v [] = false
env_shadows env v (k ∷ ks) = is_set (env (env_name v k)) || env_shadows env v ks

abbrev pub file_shadows : View → List Text → Bool
file_shadows v [] = false
file_shadows v (k ∷ ks) = is_some (lookup k v.file) || file_shadows v ks

abbrev pub unshadowed {ℓ} : {A : Type ℓ} → Bool → Option A → Option A
unshadowed shadowed other = if shadowed then none else other

-- The value that the variables make of the value of a key that the file or the defaults have.
abbrev pub overlaid : (Text → Option Text) → View → Text → Option Setting → Option Setting
overlaid env v key none = none
overlaid env v key (some s) =
    if not v.automatic
    then some s
    else if is_set (env (env_name v key))
    then some (from_env (env (env_name v key)) s)
    else unshadowed (env_shadows env v (above key)) (some s)

-- The value of a key in Unmarshal, with the variables of the environment.
unfoldable pub effective : (Text → Option Text) → View → Text → Option Setting
unfolding above env_name
effective env v key =
    overlaid env v key (
      or_else (lookup key v.file) (unshadowed (file_shadows v (above key)) (lookup key v.defaults)))

-- The keys of the struct's fields.
abbrev pub field_keys : List Text
field_keys =
    codes "env"
    ∷ codes "log_level"
    ∷ codes "http_addr"
    ∷ codes "kafka.brokers"
    ∷ codes "kafka.lag_refresh_interval"
    ∷ codes "redis.addr"
    ∷ codes "redis.password"
    ∷ codes "redis.db"
    ∷ codes "rabbitmq.url"
    ∷ codes "clickhouse.addr"
    ∷ codes "clickhouse.database"
    ∷ codes "clickhouse.username"
    ∷ codes "clickhouse.password"
    ∷ codes "fx.provider"
    ∷ codes "fx.api_key"
    ∷ codes "fx.poll_interval"
    ∷ codes "fx.cache_ttl"
    ∷ codes "fx.breaker_max_fail"
    ∷ codes "fx.breaker_cooldown"
    ∷ codes "ingestion.symbols"
    ∷ codes "processor.pool_size"
    ∷ codes "processor.fanout_buffer"
    ∷ codes "api.publicaddr"
    ∷ []

abbrev pub any_shadowed : View → List Text → Bool
any_shadowed v [] = false
any_shadowed v (k ∷ ks) = file_shadows v (above k) || any_shadowed v ks

abbrev pub occurs_in : Text → List Text → Bool
occurs_in k [] = false
occurs_in k (j ∷ ks) = text_eq j k || occurs_in k ks

abbrev pub any_occurs : List Text → List Text → Bool
any_occurs [] keys = false
any_occurs (k ∷ ks) keys = occurs_in k keys || any_occurs ks keys

-- Whether a key of the file lies below a field that is no struct, and is not shadowed by a variable. (If
-- both have a variable, the order of a Go map decides; that is taken as not decodable.)
abbrev pub is_below : (Text → Option Text) → View → Text → Bool
is_below env v k =
    any_occurs (above k) field_keys
    && (not v.automatic || is_set (env (env_name v k)) || not (env_shadows env v (above k)))

abbrev pub any_below : (Text → Option Text) → View → Table Setting → Bool
any_below env v [] = false
any_below env v ((k, s) ∷ file) = is_below env v k || any_below env v file

-- Whether the file has a value that is no table where the struct has a struct, or a table where it has
-- another field: neither can be decoded.
unfoldable pub is_misshapen : (Text → Option Text) → View → Bool
unfolding above text_eq env_name
is_misshapen env v = any_shadowed v field_keys || any_below env v v.file

-- The struct that Unmarshal fills, if all values fit.
unfoldable pub decoded : Decoder → (Text → Option Text) → View → Option Config
decoded d env v = if is_misshapen env v then none else config_of d (effective env v)

-- Unmarshal's answer: the struct, or an error where a value does not fit its field.
abbrev pub Answers : Option Config → Text ⊎ Config → Type 0
Answers none r = (e : Text) × (r ≡ inl e)
Answers (some cfg) r = r ≡ inr cfg

pub record IsViper {V : Type 0} (viper : Viper V) (d : Decoder) (env : Text → Option Text)
    : Type 0 where
  pub view : V → View
  pub new_view : view viper.new ≡ empty_view
  pub default_view :
      (key : Text) (s : Setting) (v : V)
      → view (viper.set_default key s v)
        ≡ record (view v) { defaults = insert key s (view v).defaults }
  pub prefix_view :
      (p : Text) (v : V) → view (viper.set_env_prefix p v) ≡ record (view v) { prefix = p }
  pub replacer_view :
      (old new : Text) (v : V)
      → view (viper.set_env_key_replacer old new v) ≡ record (view v) { replacer = (old, new) }
  pub automatic_view : (v : V) → view (viper.automatic_env v) ≡ record (view v) { automatic = true }
  pub file_view : (p : Text) (v : V) → view (viper.set_config_file p v) ≡ view v
  pub name_view : (p : Text) (v : V) → view (viper.set_config_name p v) ≡ view v
  pub type_view : (p : Text) (v : V) → view (viper.set_config_type p v) ≡ view v
  pub path_view : (p : Text) (v : V) → view (viper.add_config_path p v) ≡ view v
  pub read_view :
      (v : V)
      → (t : Table Setting) × (view (viper.read_in_config v).0 ≡ record (view v) { file = t })
  pub unmarshal_view : (v : V) → Answers (decoded d env (view v)) (viper.unmarshal v)
