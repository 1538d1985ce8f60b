-- ===== src/Redis/Reference.antt =====
-- A server that does what the commands document: the laws of `Redis` can be met.
use kltn_high_concurrency_co.Prelude.{◌+◌, refl}
use kltn_high_concurrency_co.Redis.Commands
use kltn_high_concurrency_co.Redis.Commands.{Schema, Keyspace}
use kltn_high_concurrency_co.Redis.{Redis}

abbrev pub reference : (c : Schema) → Redis c
reference c = record {
  State = Keyspace c;
  view = λ s. s;
  get = Commands.get c;
  exists = Commands.exists c;
  ttl = Commands.ttl c;
  set = Commands.set c;
  set_ex = Commands.set_ex c;
  del = Commands.del c;
  expire = Commands.expire c;
  incr = λ k s. (Commands.count c k s + 1, Commands.incr c k s);
  smembers = λ k s. s.sets k;
  scard = Commands.scard c;
  sadd = Commands.sadd c;
  srem = Commands.srem c;
  zscore = Commands.zscore c;
  zrank = Commands.zrank c;
  zcard = Commands.zcard c;
  zadd = Commands.zadd c;
  zpopmin = λ k s. (Commands.zmin c k s, Commands.zpopmin c k s);
  elapse = Commands.elapse c;
  get_lem = λ k s. refl;
  exists_lem = λ k s. refl;
  ttl_lem = λ k s. refl;
  view-set = λ k v s. refl;
  view-set_ex = λ k v t s h. refl;
  view-del = λ k s. refl;
  view-expire = λ k t s h. refl;
  incr_lem = λ k s. refl;
  view-incr = λ k s. refl;
  smembers_lem = λ k s. refl;
  scard_lem = λ k s. refl;
  view-sadd = λ k m s. refl;
  view-srem = λ k m s. refl;
  zscore_lem = λ k m s. refl;
  zrank_lem = λ k m s. refl;
  zcard_lem = λ k s. refl;
  view-zadd = λ k n m s. refl;
  zpopmin_lem = λ k s. refl;
  view-zpopmin = λ k s. refl;
  view-elapse = λ n s. refl;
}
