-- ===== src/Queue/Ports.antt =====
-- queue/application/ports and queue/domain: the ports of the waiting room and the entry token.
use kltn_high_concurrency_co.Prelude.{ℕ, ◌+◌, ◌*◌, Bool, Option, List, ℤ, to_ℕ}
use kltn_high_concurrency_co.Common.Ids.{UserId, EventId, Millis}
use kltn_high_concurrency_co.Common.Action.{Action}

pub record JoinResult : Type 0 where
  pub rank : ℕ
  pub total : ℕ

pub record QueueStatus : Type 0 where
  pub admitted : Bool
  pub ttl_seconds : ℤ
  pub rank : ℤ

pub record AdmitInput : Type 0 where
  pub event_id : EventId
  pub cap : ℕ
  pub ttl_seconds : ℕ

pub record QueueStorePort (S : Type 0) : Type 0 where
  pub join : EventId → UserId → Action S JoinResult
  pub get_status : EventId → UserId → Action S QueueStatus
  pub admit : AdmitInput → Action S (List UserId)

pub record WaitingRoomConfig : Type 0 where
  pub event_id : EventId
  pub max_concurrent : ℕ
  pub booking_window : ℕ

pub record WaitingRoomPort (S : Type 0) : Type 0 where
  pub get_open_room : EventId → Action S (Option WaitingRoomConfig)
  pub list_open_rooms : Action S (List WaitingRoomConfig)

-- `EntryToken`
pub record EntryToken : Type 0 where
  pub user_id : UserId
  pub event_id : EventId
  pub expires_at : Millis

-- `EntryToken.issue`; the seconds that the store reports for an admitted user are above zero.
abbrev pub issue : UserId → EventId → ℤ → Millis → EntryToken
issue user_id event_id ttl_seconds now = record {
  user_id = user_id;
  event_id = event_id;
  expires_at = now + to_ℕ ttl_seconds * 1000;
}
