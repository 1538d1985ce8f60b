-- ===== src/Queue/History.antt =====
-- Histories of a waiting room: the calls that clients and the scheduler make on one server, in any
-- order, and the time that passes between them.
use kltn_high_concurrency_co.Prelude.{ℕ, ◌<◌, List, [], ◌∷◌}
use kltn_high_concurrency_co.Common.Ids.{UserId, EventId}
use kltn_high_concurrency_co.Redis.{Redis}
use kltn_high_concurrency_co.Queue.Ports.{AdmitInput}
use kltn_high_concurrency_co.Queue.Adapter.{schema, join, get_status, admit}

pub data Call : Type 0 where
  joins polls : EventId → UserId → Call
  admits : AdmitInput → Call
  passes : ℕ → Call

-- The lifetime of the tokens is above zero.
abbrev pub IsTimed : Call → Type 0
IsTimed (admits i) = 0 < i.ttl_seconds
IsTimed _ = Unit

unfoldable pub step : (R : Redis schema) → R.State → Call → R.State
step R s (joins e u) = (join R e u s).1
step R s (polls e u) = (get_status R e u s).1
step R s (admits i) = (admit R i s).1
step R s (passes n) = R.elapse n s

unfoldable pub run : (R : Redis schema) → R.State → List Call → R.State
unfolding step
run R s [] = s
run R s (c ∷ cs) = run R (step R s c) cs
