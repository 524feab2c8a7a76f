-- ===== src/Tests/Requests.antt =====
-- Syncs of internal/provider/bitwarden_client.go with a server that is busy.
use jasm.Base.{◌≡◌, refl, ℕ, zero, suc, [], none, ok, Result}
use jasm.Text.{Bytes, codes}
use jasm.Errors.{Error}
use jasm.Bitwarden.Client.Sync.{Network, Reply, response, sync_response}
use jasm.Bitwarden.Client.Sync.Decided.{IsDecided, sync_response-IsDecided}

abbrev decode : Bytes → Result Error Bytes
decode body = ok body

-- A server that is busy once.
abbrev answer : ℕ → Reply
answer zero = response 429 []
answer (suc i) = response 200 (codes "{}")

abbrev busy_once : Network
busy_once = record { reply = answer; context_error = λ attempt time. none }

sync_response-IsDecided_example : IsDecided decode busy_once (sync_response decode busy_once)
sync_response-IsDecided_example = sync_response-IsDecided decode busy_once

-- It is the second attempt that ends the call.
busy_once_answers : sync_response decode busy_once ≡ ok (codes "{}")
unfolding sync_response
busy_once_answers = refl
