-- ===== src/Config/Load.antt =====
-- What Load answers, by the file and the environment.
use trade_pulse.Prelude.{
  ◌≡◌, refl, sym, ap, ◌∙◌, subst, Bool, true, false, List, [], ◌∷◌, Option, none, some, ◌≢◌, ◌⊎◌,
  inl, inr, arith, Bool-cases, Option-cases,
}
use trade_pulse.Text.{Text, codes, is_empty, text_eq}
use trade_pulse.Table.{Table, lookup, insert}
use trade_pulse.Config.{
  Config, Setting, Decoder, Viper, ReadError, config_file_not_found, read_failed, LoadError,
  read_config, unmarshal_config, defaults, set_defaults, set_environment, set_file, set_up,
  unmarshalled, after_read, load,
}
use trade_pulse.Config.Fields.{config_of}
use trade_pulse.Config.Values.{
  View, effective, decoded, is_misshapen, above, overlaid, unshadowed, file_shadows, Answers,
  IsViper,
}

-- The view after the calls of Load, by what the file holds.
abbrev pub loaded : Table Setting → View
loaded file = record {
  defaults = defaults;
  file = file;
  prefix = codes "TRADEPULSE";
  replacer = (codes ".", codes "_");
  automatic = true;
}

insert_all : List (Text × Setting) → Table Setting → Table Setting
insert_all [] t = t
insert_all ((key, s) ∷ rest) t = insert_all rest (insert key s t)

abbrev HasNoPublicAddr : Config → Type 0
HasNoPublicAddr cfg = cfg.public_addr ≡ []

config_of-HasNoPublicAddr :
    (d : Decoder) (get : Text → Option Setting) (cfg : Config)
    → get (codes "api.publicaddr") ≡ none
    → config_of d get ≡ some cfg
    → HasNoPublicAddr cfg
unfolding config_of
config_of-HasNoPublicAddr d get cfg unset h = ground arith

module _ {V : Type 0} (viper : Viper V) (d : Decoder) (env : Text → Option Text)
    (laws : IsViper viper d env) where
  defaults_view :
      (rest : List (Text × Setting)) (v : V)
      → laws.view (set_defaults viper rest v)
        ≡ record (laws.view v) { defaults = insert_all rest (laws.view v).defaults }
  unfolding insert_all
  defaults_view [] v = refl
  defaults_view ((key, s) ∷ rest) v =
      defaults_view rest (viper.set_default key s v) ∙ rw (laws.default_view key s v) refl

  environment_view :
      (v : V)
      → laws.view (set_environment viper v) ≡ record (laws.view v) {
        prefix = codes "TRADEPULSE";
        replacer = (codes ".", codes "_");
        automatic = true;
      }
  environment_view v =
      rw
        (
          laws.automatic_view (
              viper.set_env_key_replacer (codes ".") (codes "_")
                (viper.set_env_prefix (codes "TRADEPULSE") v)),
          laws.replacer_view (codes ".") (codes "_") (viper.set_env_prefix (codes "TRADEPULSE") v),
          laws.prefix_view (codes "TRADEPULSE") v,
        )
        refl

  located_view : (path : Text) (v : V) → laws.view (set_file viper path v) ≡ laws.view v
  located_view path v = elim (Bool-cases (is_empty path)) [
    | inl e ↦
        rw e (laws.path_view _ _ ∙ laws.path_view _ _ ∙ laws.type_view _ _ ∙ laws.name_view _ _)
    | inr e ↦ rw e (laws.file_view path v)
  ]

  set_up_view : laws.view (set_up viper) ≡ loaded []
  unfolding set_up insert_all insert text_eq
  set_up_view =
      let v = set_defaults viper defaults viper.new in
      located_view (viper.get_string (codes "config") (set_environment viper v))
        (set_environment viper v)
      ∙ environment_view v
      ∙ rw (defaults_view defaults viper.new, laws.new_view) refl

  -- What ReadInConfig has brought from the file.
  abbrev pub file_read : Table Setting
  file_read = (laws.view (viper.read_in_config (set_up viper)).0).file

  read_view : laws.view (viper.read_in_config (set_up viper)).0 ≡ loaded file_read
  read_view =
      let (t, e) = laws.read_view (set_up viper) in
      let all = e ∙ ap {A = View} {B = View} (λ w. record w { file = t }) set_up_view in
      all ∙ ap loaded (sym (ap (λ (w : View). w.file) all))

  -- The three ways in which Load ends.
  abbrev pub Ends : Text → Option Config → LoadError ⊎ Config → Type 0
  Ends service_name (some cfg) r = r ≡ inr (record cfg { service_name = service_name })
  Ends service_name none r = (e : Text) × (r ≡ inl (unmarshal_config e))

  unmarshalled-Ends :
      (service_name : Text) (m : Option Config) (r : Text ⊎ Config)
      → Answers m r
      → Ends service_name m (unmarshalled viper service_name r)
  unmarshalled-Ends service_name none r (e, h) = (e, rw h refl)
  unmarshalled-Ends service_name (some cfg) r h = rw h refl

  -- How Load ends, by the error of ReadInConfig.
  abbrev pub EndsBy : Text → Option ReadError → Option Config → LoadError ⊎ Config → Type 0
  EndsBy service_name (some (read_failed e)) m r = r ≡ inl (read_config e)
  EndsBy service_name (some config_file_not_found) m r = Ends service_name m r
  EndsBy service_name none m r = Ends service_name m r

  after_read-EndsBy :
      (service_name : Text) (x : V × Option ReadError)
      → laws.view x.0 ≡ loaded (laws.view x.0).file
      → EndsBy service_name x.1
          (decoded d env (loaded (laws.view x.0).file))
          (after_read viper service_name x)
  after_read-EndsBy service_name (v, some (read_failed e)) h = refl
  after_read-EndsBy service_name (v, some config_file_not_found) h =
      unmarshalled-Ends service_name (decoded d env (loaded (laws.view v).file)) (viper.unmarshal v)
        (subst (λ w. Answers (decoded d env w) (viper.unmarshal v)) h (laws.unmarshal_view v))
  after_read-EndsBy service_name (v, none) h =
      unmarshalled-Ends service_name (decoded d env (loaded (laws.view v).file)) (viper.unmarshal v)
        (subst (λ w. Answers (decoded d env w) (viper.unmarshal v)) h (laws.unmarshal_view v))

  -- Load returns ReadInConfig's error where the file is there and cannot be read. Where it has been
  -- read, and also where it is not there, each field is decoded from the value of its key, an
  -- environment variable TRADEPULSE_<KEY> that is not empty, with "_" for ".", before the file and
  -- the file before the default, and the service's name is the argument; or Load returns an error
  -- where such a value does not fit its field, or the file has a table for a field or another value
  -- for a struct. Only keys that have a default or are in the file have a value, and none that a
  -- variable or the file shadows. (viper does what it documents.)
  pub load-Ends :
      (service_name : Text)
      → EndsBy service_name
          (viper.read_in_config (set_up viper)).1
          (decoded d env (loaded file_read))
          (load viper service_name)
  unfolding load
  load-Ends service_name =
      after_read-EndsBy service_name (viper.read_in_config (set_up viper)) read_view

  unshadowed-none : (b : Bool) → unshadowed {A = Setting} b none ≡ none
  unshadowed-none true = refl
  unshadowed-none false = refl

  unset_value :
      lookup (codes "api.publicaddr") file_read ≡ none
      → effective env (loaded file_read) (codes "api.publicaddr") ≡ none
  unfolding effective lookup text_eq above
  unset_value unset = rw unset (
      ap (overlaid env (loaded file_read) (codes "api.publicaddr"))
        (unshadowed-none (file_shadows (loaded file_read) (above (codes "api.publicaddr")))))

  decoded-HasNoPublicAddr :
      (cfg : Config)
      → lookup (codes "api.publicaddr") file_read ≡ none
      → decoded d env (loaded file_read) ≡ some cfg
      → HasNoPublicAddr cfg
  unfolding decoded
  decoded-HasNoPublicAddr cfg unset h = elim (Bool-cases (is_misshapen env (loaded file_read))) [
    | inl m ↦ absurd (ground arith)
    | inr m ↦
        config_of-HasNoPublicAddr d (effective env (loaded file_read)) cfg (unset_value unset)
          (ground arith)
  ]

  not_loaded :
      (service_name : Text) (e : Option ReadError) (r : LoadError ⊎ Config) (cfg : Config)
      → EndsBy service_name e none r
      → r ≢ inr cfg
  not_loaded service_name none r cfg (x, h) k = absurd (ground arith)
  not_loaded service_name (some config_file_not_found) r cfg (x, h) k = absurd (ground arith)
  not_loaded service_name (some (read_failed x)) r cfg h k = absurd (ground arith)

  loaded_addr :
      (service_name : Text) (e : Option ReadError) (r : LoadError ⊎ Config) (cfg got : Config)
      → EndsBy service_name e (some got) r
      → HasNoPublicAddr got
      → r ≡ inr cfg
      → HasNoPublicAddr cfg
  loaded_addr service_name none r cfg got h k l = ground arith
  loaded_addr service_name (some config_file_not_found) r cfg got h k l = ground arith
  loaded_addr service_name (some (read_failed x)) r cfg got h k l = absurd (ground arith)

  -- Where the file has no api.publicaddr, a configuration that Load returns has an empty address for
  -- the public server, whatever the environment holds. (viper does what it documents.)
  pub load-HasNoPublicAddr :
      (service_name : Text) (cfg : Config)
      → lookup (codes "api.publicaddr") file_read ≡ none
      → load viper service_name ≡ inr cfg
      → cfg.public_addr ≡ []
  load-HasNoPublicAddr service_name cfg unset h =
      let m = decoded d env (loaded file_read) in
      elim (Option-cases m) [
        | inl z ↦ absurd (
            not_loaded service_name (viper.read_in_config (set_up viper)).1
              (load viper service_name) cfg
              (subst
                (λ x.
                  EndsBy service_name (viper.read_in_config (set_up viper)).1 x
                    (load viper service_name))
                z (load-Ends service_name))
              h)
        | inr (got, z) ↦
            let none_read = decoded-HasNoPublicAddr got unset z in
            loaded_addr service_name (viper.read_in_config (set_up viper)).1
              (load viper service_name) cfg got
              (subst
                (λ x.
                  EndsBy service_name (viper.read_in_config (set_up viper)).1 x
                    (load viper service_name))
                z (load-Ends service_name))
              none_read h
      ]
