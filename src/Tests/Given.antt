-- ===== src/Tests/Given.antt =====
-- A broker for the tests.
use kltn_high_concurrency_co.Messaging.{Broker}
use kltn_high_concurrency_co.Messaging.Reference.{reference}

abbrev pub broker : Broker
broker = reference
