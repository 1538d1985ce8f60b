-- ===== src/Redis/Client.antt =====
-- redis/redis.service.ts: the one method that does more than send a command.
use kltn_high_concurrency_co.Prelude.{ℕ, zero, suc}
use kltn_high_concurrency_co.Redis.Commands.{Schema}
use kltn_high_concurrency_co.Redis.{Redis}

-- `RedisService.set`
abbrev pub set_for : {c : Schema} (R : Redis c) → c.StringKey → c.Value → ℕ → R.State → R.State
set_for R key value zero s = R.set key value s
set_for R key value (suc n) s = R.set_ex key value (suc n) s
