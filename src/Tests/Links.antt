-- ===== src/Tests/Links.antt =====
-- The connection to the broker at concrete inputs.
use kltn_high_concurrency_co.Prelude.{
  ℕ, ◌≡◌, ◌⊎◌, ◌≤◌, refl, false, some, List, [], ◌∷◌, ◌++◌, arith,
}
use kltn_high_concurrency_co.Messaging.Connection.{
  QueueName, Link, binding_stage, Service, on_close, consume,
}
use kltn_high_concurrency_co.Messaging.Attempts.{
  Happening, consumes, closes, fires, run, goes_on, IsBack, IsCaught,
}
use kltn_high_concurrency_co.Messaging.Consumers.{run-fires}

same_list : (s t : List QueueName) → some s ≡ some t → t ≡ s
same_list s t e = ground arith

-- A broker that takes every call.
abbrev link : Link
link = record {
  State = List QueueName;
  consuming = λ s. s;
  connect = some;
  create_confirm_channel = λ s. some [];
  assert_exchange = λ e k. some;
  assert_delay_queue = λ n e. some;
  bind_delay_queue = λ e. some;
  consume = λ q s. some (s ++ q ∷ []);
  create_confirm_channel_done = λ s t e. same_list [] t e;
  assert_exchange_done = λ e k. same_list;
  assert_delay_queue_done = λ n e. same_list;
  bind_delay_queue_done = λ e. same_list;
  consume_done = λ q s t e. same_list (s ++ q ∷ []) t e;
}

-- A run of `connect` has come to the binding.
abbrev started : Service link
started = record {
  consumers = [];
  shutting_down = false;
  timers = 0;
  attempts = binding_stage ∷ [];
  link = [];
}

-- Two consumers are registered and the connection is lost.
abbrev outage : List (Happening link 900000)
outage = consumes 1 ∷ consumes 2 ∷ closes [] ∷ []

one_timer : (run link 900000 outage started).timers ≡ 1
unfolding on_close consume
one_timer = refl

run-fires_example :
    (k : ℕ) × (k ≤ 8)
    × (IsBack link 900000
          (1 ∷ 2 ∷ [])
          0
          (run link 900000 outage started).attempts
          (run link 900000 (fires ∷ goes_on link 900000 k) (run link 900000 outage started))
        ⊎ IsCaught link 900000 0
            (run link 900000 outage started).attempts
            (run link 900000 (fires ∷ goes_on link 900000 k) (run link 900000 outage started)))
run-fires_example = run-fires link 900000 outage started 0 one_timer
