-- ===== src/App/Main.antt =====
-- The commands of p2pshare.py from the password on, what they print of lists, and `main`. Arguments
-- are parsed; passwords, answers, the time and the path with `~` expanded are arguments.
pub mod Listing
pub mod Exit
use cisc468_python.Base.{
  ℕ, Bytes, Str, codes, take, Bool, true, false, if◌then◌else◌, str_eq, List, [], ◌∷◌, ◌++◌, map,
  Option, none, some, Exec, Exn, pure, raise, lift, gets, try, ◌>>=◌, ◌>>◌, Result, ok, err,
  bind_result, system_exit, attribute_error, type_error, length,
}
use cisc468_python.Base.Dict.{Dict, values}
use cisc468_python.Json.{
  Json, null, str, text, arr, obj, Items, nil, cons, items, get, index, truthy,
}
use cisc468_python.Json.Dumps.{show_nat}
use cisc468_python.Runtime.{Runtime, py_str}
use cisc468_python.Crypto.Identity.{Identity}
use cisc468_python.Node.{Contact, Node}
use cisc468_python.Client.Contacts.{Client, add_contact, list_files}
use cisc468_python.Client.Requests.{request_file}
use cisc468_python.App.Address.{parse_address, parse_new_address}
use cisc468_python.App.Commands.{share, unshare, verify_contact, rotate_key}
use cisc468_python.Server.Lifecycle.{Connection}
use cisc468_python.Discovery.{Event}
use cisc468_python.App.Opening.{load_stores}
use cisc468_python.App.Serving.{Serving, serve_peers, cmd_discover}
use cisc468_python.App.Main.Listing.{contact_lines, listing_lines}

-- What a command came to, when no exception left it.
pub data Outcome : Type 0 where
  bad_address : Outcome
  failed : Exn → Outcome
  added : Contact → Outcome
  printed : List Str → Outcome
  delivered : Outcome
  served : Serving → Outcome
  finished : Outcome

-- The subcommands, with what they meet: the address of the peer and its connections, or the events of
-- the browser.
pub data Command : Type 0 where
  add_contacts : Str → ℕ → Command
  list_contacts : Command
  verify_contacts : Str → Bool → Command
  shares : Str → Str → Command
  unshares : Str → Command
  lists_files : Str → Command
  requests_file : Str → Str → Command
  rotates_key : Bool → Str → Str → Command
  serves : Option Bytes → Bool → ℕ → (Str → Str → Str → Bool) → List Connection → Command
  discovers : Result (List Event) → Str → Command

-- `try: … except Exception as e:`, as a value
attempt {ℓ} : {A : Type ℓ} → Exec Node A → Exec Node (Result A)
attempt m n = let (res, n') = m n in (ok res, n')

abbrev pub client_of : Identity → ℕ → Client
client_of identity listen_port = record { identity = identity; listen_port = listen_port }

module _ (r : Runtime) where
  add_outcome : Result Contact → Outcome
  add_outcome (ok contact) = added contact
  add_outcome (err e) = failed e

  add_at : Client → Option (Str × ℕ) → Exec Node Outcome
  unfolding attempt add_outcome
  add_at client none = pure bad_address
  add_at client (some (host, port)) = do
    res ← attempt (add_contact r client host port)
    pure (add_outcome res)

  -- `cmd_add_contact`
  unfoldable pub cmd_add_contact : Identity → Str → ℕ → Exec Node Outcome
  unfolding add_at
  cmd_add_contact identity target listen_port =
      add_at (client_of identity listen_port) (parse_new_address target)

  -- `cmd_list_contacts`
  unfoldable pub cmd_list_contacts : Exec Node Outcome
  cmd_list_contacts = do
    contacts ← gets (λ n. values n.contacts)
    pure (printed (contact_lines r contacts))

  list_outcome : Result Json → Exec Node Outcome
  list_outcome (err e) = pure (failed e)
  list_outcome (ok files) = do lines ← lift (listing_lines r files); pure (printed lines)

  list_files_at : Client → Option (Str × ℕ) → Exec Node Outcome
  unfolding attempt list_outcome
  list_files_at client none = pure bad_address
  list_files_at client (some (host, port)) = do
    res ← attempt (list_files r client host port)
    list_outcome res

  -- `cmd_list_files`
  unfoldable pub cmd_list_files : Identity → Str → Exec Node Outcome
  unfolding list_files_at
  cmd_list_files identity target = list_files_at (client_of identity 0) (parse_address target)

  -- `if not ok: sys.exit(1)`, and the same after an exception
  request_outcome : Result Bool → Exec Node Outcome
  request_outcome (ok true) = pure delivered
  request_outcome (ok false) = raise system_exit
  request_outcome (err e) = raise system_exit

  request_at : Client → Str → Option (Str × ℕ) → Exec Node Outcome
  unfolding attempt request_outcome
  request_at client file_id none = pure bad_address
  request_at client file_id (some (host, port)) = do
    res ← attempt (request_file r client host port file_id)
    request_outcome res

  -- `cmd_request_file`
  unfoldable pub cmd_request_file : Identity → Str → Str → Exec Node Outcome
  unfolding request_at
  cmd_request_file identity target file_id =
      request_at (client_of identity 0) file_id (parse_address target)

  -- The body of each command behind `load_stores`.
  unfoldable pub command : Identity → Command → Exec Node Outcome
  unfolding cmd_add_contact cmd_list_contacts cmd_list_files cmd_request_file
  command identity (add_contacts target port) = cmd_add_contact identity target port
  command identity list_contacts = cmd_list_contacts
  command identity (verify_contacts fingerprint confirmed) = do
    verify_contact r fingerprint confirmed
    pure finished
  command identity (shares path timestamp) = do share r identity path timestamp; pure finished
  command identity (unshares file_id) = do unshare r file_id; pure finished
  command identity (lists_files target) = cmd_list_files identity target
  command identity (requests_file target file_id) = cmd_request_file identity target file_id
  command identity (rotates_key confirmed new_pw new_pw2) = do
    rotate_key r identity confirmed new_pw new_pw2
    pure finished
  command identity (serves address works port consent connections) = do
    serving ← serve_peers r address works identity port consent connections
    pure (served serving)
  command identity (discovers events message) = pure (printed (cmd_discover events message))

  -- `discover` opens no store.
  unfoldable pub run : Str → Command → Exec Node Outcome
  unfolding command
  run password (discovers events message) = pure (printed (cmd_discover events message))
  run password c = do identity ← load_stores r password; command identity c

  -- `sys.exit(1)` in a command and any other exception both end with status 1.
  status : Result Outcome → ℕ
  status (ok outcome) = 0
  status (err e) = 1

  -- `main`, for a command that the table has: the exit status and the peer
  unfoldable pub main : Str → Command → Node → ℕ × Node
  unfolding status run
  main password c n = let (res, n') = run password c n in (status res, n')
