-- ===== src/App/Main/Exit.antt =====
-- The exit status of `request-file`.
use cisc468_python.Base.{ℕ, Bool, true, Result, ok}
use cisc468_python.Json.{Json}
use cisc468_python.Runtime.{Runtime}
use cisc468_python.Crypto.Identity.{Identity}
use cisc468_python.Node.{Node}
use cisc468_python.Client.Requests.Settled
use cisc468_python.Client.Transfer.Receipt.{Receipt}

module _ (r : Runtime) where
  -- The status of a request, from what `request_file` did.
  status_of_request : Result Bool → ℕ
  status_of_request (ok true) = 0
  status_of_request _ = 1
