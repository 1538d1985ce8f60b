-- ===== src/Redis.antt =====
-- The Redis server that concert-ticketing/src/redis/redis.service.ts connects to. It is not part
-- of the repository: it is the parameter `Redis`, whose laws are the documented effect of each
-- command on what a client can observe, the `Keyspace`.
pub mod Commands
pub mod Client
pub mod Reference
use kltn_high_concurrency_co.Prelude.{ℕ, ◌+◌, ◌<◌, ◌≡◌, Bool, Option, List, ℤ}
use Commands
use Commands.{Schema, Keyspace}

-- A server: its states, the commands that the program sends, and the passing of time.
pub record Redis (c : Schema) : Type 1 where
  pub State : Type 0
  pub view : State → Keyspace c
  pub get : c.StringKey → State → Option c.Value
  pub exists : c.StringKey → State → Bool
  pub ttl : c.StringKey → State → ℤ
  pub set : c.StringKey → c.Value → State → State
  pub set_ex : c.StringKey → c.Value → ℕ → State → State
  pub del : c.StringKey → State → State
  pub expire : c.StringKey → ℕ → State → State
  pub incr : c.StringKey → State → ℕ × State
  pub smembers : c.SetKey → State → List ℕ
  pub scard : c.SetKey → State → ℕ
  pub sadd : c.SetKey → ℕ → State → State
  pub srem : c.SetKey → ℕ → State → State
  pub zscore : c.QueueKey → ℕ → State → Option ℕ
  pub zrank : c.QueueKey → ℕ → State → Option ℕ
  pub zcard : c.QueueKey → State → ℕ
  pub zadd : c.QueueKey → ℕ → ℕ → State → State
  pub zpopmin : c.QueueKey → State → Option ℕ × State
  pub elapse : ℕ → State → State
  pub get_lem : (k : c.StringKey) (s : State) → get k s ≡ Commands.get c k (view s)
  pub exists_lem : (k : c.StringKey) (s : State) → exists k s ≡ Commands.exists c k (view s)
  pub ttl_lem : (k : c.StringKey) (s : State) → ttl k s ≡ Commands.ttl c k (view s)
  pub view-set :
      (k : c.StringKey) (v : c.Value) (s : State) → view (set k v s) ≡ Commands.set c k v (view s)
  pub view-set_ex :
      (k : c.StringKey) (v : c.Value) (t : ℕ) (s : State)
      → 0 < t
      → view (set_ex k v t s) ≡ Commands.set_ex c k v t (view s)
  pub view-del : (k : c.StringKey) (s : State) → view (del k s) ≡ Commands.del c k (view s)
  pub view-expire :
      (k : c.StringKey) (t : ℕ) (s : State)
      → 0 < t
      → view (expire k t s) ≡ Commands.expire c k t (view s)
  pub incr_lem : (k : c.StringKey) (s : State) → (incr k s).0 ≡ Commands.count c k (view s) + 1
  pub view-incr : (k : c.StringKey) (s : State) → view (incr k s).1 ≡ Commands.incr c k (view s)
  pub smembers_lem : (k : c.SetKey) (s : State) → smembers k s ≡ (view s).sets k
  pub scard_lem : (k : c.SetKey) (s : State) → scard k s ≡ Commands.scard c k (view s)
  pub view-sadd :
      (k : c.SetKey) (m : ℕ) (s : State) → view (sadd k m s) ≡ Commands.sadd c k m (view s)
  pub view-srem :
      (k : c.SetKey) (m : ℕ) (s : State) → view (srem k m s) ≡ Commands.srem c k m (view s)
  pub zscore_lem :
      (k : c.QueueKey) (m : ℕ) (s : State) → zscore k m s ≡ Commands.zscore c k m (view s)
  pub zrank_lem : (k : c.QueueKey) (m : ℕ) (s : State) → zrank k m s ≡ Commands.zrank c k m (view s)
  pub zcard_lem : (k : c.QueueKey) (s : State) → zcard k s ≡ Commands.zcard c k (view s)
  pub view-zadd :
      (k : c.QueueKey) (n m : ℕ) (s : State) → view (zadd k n m s) ≡ Commands.zadd c k n m (view s)
  pub zpopmin_lem : (k : c.QueueKey) (s : State) → (zpopmin k s).0 ≡ Commands.zmin c k (view s)
  pub view-zpopmin :
      (k : c.QueueKey) (s : State) → view (zpopmin k s).1 ≡ Commands.zpopmin c k (view s)
  pub view-elapse : (n : ℕ) (s : State) → view (elapse n s) ≡ Commands.elapse c n (view s)
