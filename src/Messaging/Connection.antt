-- ===== src/Messaging/Connection.antt =====
-- common/messaging/messaging.service.ts: the connection to the broker, which is made again when it is lost, and
-- the consumers, which are then registered again. The client library is the parameter `Link`: each of its calls may
-- fail. Everything else may happen between two calls that a run of `connect` awaits.
use kltn_high_concurrency_co.Prelude.{
  ℕ, zero, suc, ◌≡◌, Bool, true, false, Option, none, some, List, [], ◌∷◌, ◌++◌, if◌then◌else◌,
}
use kltn_high_concurrency_co.Messaging.{Exchange, delay_exchange, work_exchange}

-- The names of queues are only compared.
abbrev pub QueueName : Type 0
QueueName = ℕ

pub data ExchangeKind : Type 0 where
  fanout direct : ExchangeKind

pub record Link : Type 1 where
  pub State : Type 0
  -- the queues that the present channel consumes from
  pub consuming : State → List QueueName
  pub connect : State → Option State
  -- a channel of the last connection, which becomes the present one
  pub create_confirm_channel : State → Option State
  pub assert_exchange : Exchange → ExchangeKind → State → Option State
  -- the delay queue with its lifetime and its dead-letter exchange, and its binding
  pub assert_delay_queue : ℕ → Exchange → State → Option State
  pub bind_delay_queue : Exchange → State → Option State
  pub consume : QueueName → State → Option State
  pub create_confirm_channel_done :
      (s t : State) → create_confirm_channel s ≡ some t → consuming t ≡ []
  pub assert_exchange_done :
      (e : Exchange) (k : ExchangeKind) (s t : State)
      → assert_exchange e k s ≡ some t
      → consuming t ≡ consuming s
  pub assert_delay_queue_done :
      (n : ℕ) (e : Exchange) (s t : State)
      → assert_delay_queue n e s ≡ some t
      → consuming t ≡ consuming s
  pub bind_delay_queue_done :
      (e : Exchange) (s t : State) → bind_delay_queue e s ≡ some t → consuming t ≡ consuming s
  pub consume_done :
      (q : QueueName) (s t : State) → consume q s ≡ some t → consuming t ≡ consuming s ++ q ∷ []

-- The call that a run of `connect` awaits: after the connection and the channel come the four calls of
-- `setupDelayTopology`, then the consumers, of which `registering i q` is the one at the position `i`.
pub data Stage : Type 0 where
  connecting opening delay_exchange_stage work_exchange_stage : Stage
  delay_queue_stage binding_stage : Stage
  registering : ℕ → QueueName → Stage

abbrev pub get_elem? : ℕ → List QueueName → Option QueueName
get_elem? i [] = none
get_elem? zero (q ∷ queues) = some q
get_elem? (suc i) (q ∷ queues) = get_elem? i queues

-- for (const consumer of this.consumers), which reads the list as it is then
abbrev pub register_from : ℕ → List QueueName → Option Stage
register_from i queues = elim (get_elem? i queues) [ none ↦ none | some q ↦ some (registering i q) ]

-- What is awaited next; nothing at the end.
abbrev pub next_stage : Stage → List QueueName → Option Stage
next_stage connecting queues = some opening
next_stage opening queues = some delay_exchange_stage
next_stage delay_exchange_stage queues = some work_exchange_stage
next_stage work_exchange_stage queues = some delay_queue_stage
next_stage delay_queue_stage queues = some binding_stage
next_stage binding_stage queues = register_from 0 queues
next_stage (registering i q) queues = register_from (suc i) queues

-- A run of `connect` that is taken up again, with the ones beside it.
abbrev pub take_out : ℕ → List Stage → Option (Stage × List Stage)
take_out n [] = none
take_out zero (stage ∷ stages) = some (stage, stages)
take_out (suc n) (stage ∷ stages) = elim (take_out n stages) [
  | none ↦ none
  | some (found, others) ↦ some (found, stage ∷ others)
]

module _ (L : Link) where
  -- `ttl_ms` is the lifetime of the delay queue.
  unfoldable pub awaited : ℕ → Stage → L.State → Option L.State
  awaited ttl_ms connecting s = L.connect s
  awaited ttl_ms opening s = L.create_confirm_channel s
  awaited ttl_ms delay_exchange_stage s = L.assert_exchange delay_exchange fanout s
  awaited ttl_ms work_exchange_stage s = L.assert_exchange work_exchange direct s
  awaited ttl_ms delay_queue_stage s = L.assert_delay_queue ttl_ms work_exchange s
  awaited ttl_ms binding_stage s = L.bind_delay_queue delay_exchange s
  awaited ttl_ms (registering i q) s = L.consume q s

  -- The service: its consumers, whether it shuts down, the reconnections that are scheduled, the runs of `connect`
  -- that were started by timers and have not ended, and the link.
  pub record Service : Type 0 where
    pub consumers : List QueueName
    pub shutting_down : Bool
    pub timers : ℕ
    pub attempts : List Stage
    pub link : L.State

  abbrev pub schedule_reconnect : Service → Service
  schedule_reconnect m = record m { timers = suc m.timers }

  -- the `close` event of a connection, with the link as it is after it
  unfoldable pub on_close : L.State → Service → Service
  on_close link m =
      let lost = record m { link = link } in
      if m.shutting_down then lost else schedule_reconnect lost

  -- the callback of a timer, up to the first call that `connect` awaits
  unfoldable pub on_timer : Service → Service
  on_timer m = elim m.timers [
    | zero ↦ m
    | suc n ↦ record m { timers = n; attempts = connecting ∷ m.attempts }
  ]

  -- The awaited call of a run of `connect` has ended: the run goes on to the next call, or it is caught and another
  -- reconnection is scheduled.
  unfoldable pub connect_step : ℕ → Stage → Service → Service
  connect_step ttl_ms stage m = elim (awaited ttl_ms stage m.link) [
    | none ↦ schedule_reconnect m
    | some link ↦ elim (next_stage stage m.consumers) [
      | none ↦ record m { link = link }
      | some further ↦ record m { link = link; attempts = further ∷ m.attempts }
    ]
  ]

  unfoldable pub resume : ℕ → ℕ → Service → Service
  unfolding connect_step
  resume ttl_ms n m = elim (take_out n m.attempts) [
    | none ↦ m
    | some (stage, others) ↦ connect_step ttl_ms stage (record m { attempts = others })
  ]

  -- `consume`: the consumer is kept also when its registration fails
  unfoldable pub consume : QueueName → Service → Bool × Service
  consume q m =
      let kept = record m { consumers = m.consumers ++ q ∷ [] } in
      elim (L.consume q m.link) [ none ↦ (false, kept) | some t ↦ (true, record kept { link = t }) ]

  -- `onModuleDestroy`, up to the closing of the connection
  abbrev pub on_module_destroy : Service → Service
  on_module_destroy m = record m { shutting_down = true }
