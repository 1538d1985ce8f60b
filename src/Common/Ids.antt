-- ===== src/Common/Ids.antt =====
-- Identifiers are UUIDs, 128-bit numbers that the program only compares. Times are milliseconds
-- since the epoch, as `Date.now()` gives them, and come in as arguments.
use kltn_high_concurrency_co.Prelude.{ℕ}

abbrev pub UserId : Type 0
UserId = ℕ

abbrev pub EventId : Type 0
EventId = ℕ

abbrev pub SeatId : Type 0
SeatId = ℕ

abbrev pub OrderId : Type 0
OrderId = ℕ

abbrev pub RowId : Type 0
RowId = ℕ

abbrev pub Millis : Type 0
Millis = ℕ
