-- ===== src/Common/Exception.antt =====
-- The errors that the use cases throw, the HTTP exceptions that the controllers and services throw,
-- and common/filters/http-exception.filter.ts, which answers a request that threw.
use kltn_high_concurrency_co.Prelude.{ℕ, ◌≡◌, ◌⊎◌, refl, inl, inr, Option, List}
use kltn_high_concurrency_co.Common.Ids.{UserId, EventId, SeatId, OrderId}

-- domain/order.entity.ts
pub data OrderStatus : Type 0 where
  pending paid expired cancelled : OrderStatus

-- The `code` that an HTTP exception carries.
pub data ErrorCode : Type 0 where
  seat_taken ticket_limit_reached queue_closed : ErrorCode
  seat_hold_expired order_key_consumed seat_not_priceable : ErrorCode

-- The exceptions of @nestjs/common that the program throws.
pub data HttpError : Type 0 where
  bad_request unauthorized forbidden not_found conflict unprocessable_entity : HttpError
  too_many_requests : HttpError

pub data Exception : Type 0 where
  seat_taken_error : SeatId → Exception
  ticket_limit_reached_error : UserId → ℕ → Exception
  queue_closed_error : EventId → Exception
  seat_hold_expired_error : List SeatId → Exception
  duplicate_order_error : ℕ → Exception
  order_key_consumed_error : Option OrderId → Option OrderStatus → Exception
  seat_not_priceable_error : SeatId → Exception
  http_exception : HttpError → Option ErrorCode → Exception
  -- any other `Error`
  error : Exception

abbrev pub get_status : HttpError → ℕ
get_status bad_request = 400
get_status unauthorized = 401
get_status forbidden = 403
get_status not_found = 404
get_status conflict = 409
get_status unprocessable_entity = 422
get_status too_many_requests = 429

-- The status of the response that `HttpExceptionFilter.catch` writes.
unfoldable pub catch : Exception → ℕ
catch (http_exception e code) = get_status e
catch _ = 500

-- What a call gives: a value, or the exception that it throws.
pub data Result {ℓ} (A : Type ℓ) : Type ℓ where
  ok : A → Result A
  throw : Exception → Result A

pub Result-cases {ℓ} :
    {A : Type ℓ} (r : Result A) → ((a : A) × (r ≡ ok a)) ⊎ ((e : Exception) × (r ≡ throw e))
Result-cases (ok a) = inl (a, refl)
Result-cases (throw e) = inr (e, refl)
