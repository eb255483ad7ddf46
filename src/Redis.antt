-- ===== src/Redis.antt =====
-- The Redis client that the services call: an interface, with what Redis documents of SET and GET.
use trade_pulse.Prelude.{◌≡◌, ◌≢◌, ◌⊎◌, Option, none, some}
use trade_pulse.Text.{Text}

-- The answer to a GET: the value, redis.Nil, or another error.
pub data Reply : Type 0 where
  value : Text → Reply
  missing : Reply
  failed : Text → Reply

-- `R` is the state of the client and the server. An error is its message.
pub record Redis (R : Type 0) : Type 0 where
  pub set : Text → Text → R → R × Option Text
  pub get : Text → R → Reply
  pub ping : R → Option Text

abbrev pub reply_of : Option Text → Reply
reply_of none = missing
reply_of (some v) = value v

-- `held` is what the server holds under a key. A SET that succeeds stores its value, and none, also
-- if it fails, touches another key; a GET answers with what is held, or fails.
pub record IsRedis {R : Type 0} (ops : Redis R) : Type 0 where
  pub held : Text → R → Option Text
  pub set_held : (k v : Text) (r : R) → (ops.set k v r).1 ≡ none → held k (ops.set k v r).0 ≡ some v
  pub set_other : (k j v : Text) (r : R) → k ≢ j → held j (ops.set k v r).0 ≡ held j r
  pub get_held :
      (k : Text) (r : R)
      → (ops.get k r ≡ reply_of (held k r)) ⊎ ((e : Text) × (ops.get k r ≡ failed e))
