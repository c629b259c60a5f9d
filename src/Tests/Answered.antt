-- ===== src/Tests/Answered.antt =====
-- A client of the io_uring build that sends three requests.
use warp_api.Session.Uring.{Queue, Uring}
use warp_api.Prelude.{[]}

abbrev three_entries : Queue
three_entries = record { free = 3; entries = [] }
