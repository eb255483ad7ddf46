-- ===== src/Scenarios/MemoryRedis.antt =====
-- An instance of the Redis interface: a map that never fails.
use trade_pulse.Prelude.{◌≡◌, refl, ◌≢◌, inl, none, arith}
use trade_pulse.Text.{Text, text_eq_iff}
use trade_pulse.Table.{Table, lookup, insert, lookup-insert, lookup-insert_self}
use trade_pulse.Redis.{Redis, IsRedis, reply_of}

abbrev pub memory_redis : Redis (Table Text)
memory_redis = record {
  set = λ k v r. (insert k v r, none);
  get = λ k r. reply_of (lookup k r);
  ping = λ r. none;
}

kept : (k j v : Text) (r : Table Text) → k ≢ j → lookup j (insert k v r) ≡ lookup j r
kept k j v r d = ground (arith, lookup-insert k j v r, text_eq_iff k j)

pub memory_redis-IsRedis : IsRedis memory_redis
memory_redis-IsRedis = record {
  held = lookup;
  set_held = λ k v r h. lookup-insert_self k v r;
  set_other = kept;
  get_held = λ k r. inl refl;
}
