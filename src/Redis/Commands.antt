-- ===== src/Redis/Commands.antt =====
-- What a client of a Redis server can observe, and the documented effect of each command on it.
-- The program builds its keys by templates over UUIDs and addresses; a `Schema` gives a type of
-- keys for each kind of value that the program keeps, so that no key is used at two kinds.
use mathlib.Core.Option
use kltn_high_concurrency_co.Prelude.{
  ℕ, suc, ◌+◌, ◌-◌, Bool, true, false, ◌&&◌, ◌||◌, Option, none, some, List, [], ◌∷◌, ℤ, pos,
  negsuc, ltb, leb, ◌==◌, if◌then◌else◌, update, length, mem, erase,
}

pub record Schema : Type 1 where
  pub StringKey : Type 0
  pub SetKey : Type 0
  pub QueueKey : Type 0
  pub Value : Type 0
  pub same_string : StringKey → StringKey → Bool
  pub same_set : SetKey → SetKey → Bool
  pub same_queue : QueueKey → QueueKey → Bool
  -- how a value reads as the integer of `INCR`, and is written by it
  pub to_count : Value → ℕ
  pub of_count : ℕ → Value

-- A string value with the seconds that it has left; `none` is a key without expiry.
pub record Entry (V : Type 0) : Type 0 where
  pub value : V
  pub left : Option ℕ

-- A sorted set lists its (score, member) pairs in its own order, lowest first.
pub record Keyspace (c : Schema) : Type 0 where
  pub strings : c.StringKey → Option (Entry c.Value)
  pub sets : c.SetKey → List ℕ
  pub queues : c.QueueKey → List (ℕ × ℕ)

-- Seconds pass for one key: it is gone when its time is up.
abbrev pub age : {V : Type 0} → ℕ → Option (Entry V) → Option (Entry V)
age n none = none
age n (some e) = elim e.left [
  | none ↦ some e
  | some t ↦ if leb t n then none else some (record { value = e.value; left = some (t - n) })
]

abbrev pub insert_scored : ℕ → ℕ → List (ℕ × ℕ) → List (ℕ × ℕ)
insert_scored n m [] = (n, m) ∷ []
insert_scored n m ((i, a) ∷ q) =
    if ltb n i || (n == i && ltb m a) then (n, m) ∷ (i, a) ∷ q else (i, a) ∷ insert_scored n m q

abbrev pub score_of : ℕ → List (ℕ × ℕ) → Option ℕ
score_of m [] = none
score_of m ((i, a) ∷ q) = if m == a then some i else score_of m q

abbrev pub rank_of : ℕ → List (ℕ × ℕ) → Option ℕ
rank_of m [] = none
rank_of m ((i, a) ∷ q) = if m == a then some 0 else Option.map suc (rank_of m q)

abbrev pub without : ℕ → List (ℕ × ℕ) → List (ℕ × ℕ)
without m [] = []
without m ((i, a) ∷ q) = if m == a then q else (i, a) ∷ without m q

abbrev pub first : List (ℕ × ℕ) → Option ℕ
first [] = none
first ((i, a) ∷ q) = some a

abbrev pub rest : List (ℕ × ℕ) → List (ℕ × ℕ)
rest [] = []
rest (p ∷ q) = q

module _ (c : Schema) where
  -- GET, EXISTS, TTL
  abbrev pub get : c.StringKey → Keyspace c → Option c.Value
  get k s = Option.map (λ e. e.value) (s.strings k)

  abbrev pub exists : c.StringKey → Keyspace c → Bool
  exists k s = elim (s.strings k) [ none ↦ false | some e ↦ true ]

  abbrev pub ttl : c.StringKey → Keyspace c → ℤ
  ttl k s = elim (s.strings k) [
    | none ↦ negsuc 1
    | some e ↦ elim e.left [ none ↦ negsuc 0 | some t ↦ pos t ]
  ]

  abbrev pub put : c.StringKey → Option (Entry c.Value) → Keyspace c → Keyspace c
  put k e s = record s { strings = update c.same_string s.strings k e }

  -- SET, SET EX, DEL, EXPIRE
  abbrev pub set : c.StringKey → c.Value → Keyspace c → Keyspace c
  set k v s = put k (some (record { value = v; left = none })) s

  abbrev pub set_ex : c.StringKey → c.Value → ℕ → Keyspace c → Keyspace c
  set_ex k v t s = put k (some (record { value = v; left = some t })) s

  abbrev pub del : c.StringKey → Keyspace c → Keyspace c
  del k s = put k none s

  abbrev pub expire : c.StringKey → ℕ → Keyspace c → Keyspace c
  expire k t s = put k (Option.map (λ e. record { value = e.value; left = some t }) (s.strings k)) s

  -- INCR counts from 0 at a missing key, and keeps the time that is left.
  abbrev pub count : c.StringKey → Keyspace c → ℕ
  count k s = elim (s.strings k) [ none ↦ 0 | some e ↦ c.to_count e.value ]

  abbrev pub left_of : c.StringKey → Keyspace c → Option ℕ
  left_of k s = elim (s.strings k) [ none ↦ none | some e ↦ e.left ]

  abbrev pub incr : c.StringKey → Keyspace c → Keyspace c
  incr k s = put k (some (record { value = c.of_count (count k s + 1); left = left_of k s })) s

  -- SCARD, SADD, SREM
  abbrev pub scard : c.SetKey → Keyspace c → ℕ
  scard k s = length (s.sets k)

  abbrev pub sadd : c.SetKey → ℕ → Keyspace c → Keyspace c
  sadd k m s = record s {
    sets = update c.same_set s.sets k (if mem m (s.sets k) then s.sets k else m ∷ s.sets k);
  }

  abbrev pub srem : c.SetKey → ℕ → Keyspace c → Keyspace c
  srem k m s = record s { sets = update c.same_set s.sets k (erase m (s.sets k)) }

  -- ZSCORE, ZRANK, ZCARD, ZADD, ZPOPMIN
  abbrev pub zscore : c.QueueKey → ℕ → Keyspace c → Option ℕ
  zscore k m s = score_of m (s.queues k)

  abbrev pub zrank : c.QueueKey → ℕ → Keyspace c → Option ℕ
  zrank k m s = rank_of m (s.queues k)

  abbrev pub zcard : c.QueueKey → Keyspace c → ℕ
  zcard k s = length (s.queues k)

  abbrev pub zadd : c.QueueKey → ℕ → ℕ → Keyspace c → Keyspace c
  zadd k n m s = record s {
    queues = update c.same_queue s.queues k (insert_scored n m (without m (s.queues k)));
  }

  abbrev pub zmin : c.QueueKey → Keyspace c → Option ℕ
  zmin k s = first (s.queues k)

  abbrev pub zpopmin : c.QueueKey → Keyspace c → Keyspace c
  zpopmin k s = record s { queues = update c.same_queue s.queues k (rest (s.queues k)) }

  -- n seconds pass.
  abbrev pub elapse : ℕ → Keyspace c → Keyspace c
  elapse n s = record s { strings = λ k. age n (s.strings k) }
