-- ===== src/TransferManager.antt =====
-- backend/src/transfer/transfer_manager.cpp, and from backend/src/transfer/transfer.cpp the start and stop of
-- the server that the manager owns.
pub mod Reach
mod Tests
use space_station.Prelude.{
  Bool, Bool-cases, List, Option, Option-cases, Result, String, [], ap, ap₂, arith, err, false,
  fun_ext, guard, if◌then◌else◌, inl, inr, leb, ltb, map, max, min, none, not, ok, refl, some,
  subst, suc, sym, true, zero, ℕ, ◌%◌, ◌&&◌, ◌*◌, ◌++◌, ◌+◌, ◌-◌, ◌/◌, ◌<◌, ◌==◌, ◌>>=◌, ◌>>◌, ◌^◌,
  ◌||◌, ◌↔◌, ◌∙◌, ◌∷◌, ◌≡◌, ◌≢◌, ◌≤◌, ◌⊎◌,
}
use space_station.Prelude.Int.{ℤ, pos, negsuc}
use space_station.Prelude.Dict.{Dict, insert}
use space_station.Prelude.Bytes.{bytes_eq, Bytes}

pub data Error : Type 0 where
  no_listener no_server_credentials invalid_threshold invalid_ports : Error
  cannot_prepare cannot_listen stop_first invalid_config : Error

-- `threshold_in_range` says whether same_name_match_threshold is neither below 0.0 nor above 1.0.
pub record ServerConfig : Type 0 where
  pub tls_enabled : Bool
  pub tls_port : ℤ
  pub plain_enabled : Bool
  pub plain_port : ℤ
  pub certificate_path : Bytes
  pub private_key_path : Bytes
  pub client_ca_path : Bytes
  pub threshold_in_range : Bool

-- Server::Impl, as far as Start and Stop change it; a listener is its port and whether it uses TLS.
pub record Server : Type 0 where
  pub config : ServerConfig
  pub running : Bool
  pub listeners : List (ℤ × Bool)

pub record FileProgress : Type 0 where
  pub file_id : Bytes
  pub stage : Bytes
  pub uploaded_bytes : ℕ
  pub error : Bytes

pub data Status : Type 0 where
  queued running completed failed : Status

pub record Job : Type 0 where
  pub status : Status
  pub files : List FileProgress
  pub error : Bytes

-- TransferManager, with what the configuration store keeps of it; `stopping` lists the servers that calls
-- of StopServer have taken out and not yet stopped.
pub record Manager : Type 0 where
  pub server_config : ServerConfig
  pub server : Option Server
  pub stopping : List Server
  pub jobs : Dict Job
  pub saved : Option ServerConfig

abbrev pub same_port : ℤ → ℤ → Bool
same_port (pos a) (pos b) = a == b
same_port (negsuc a) (negsuc b) = a == b
same_port (pos a) (negsuc b) = not true
same_port (negsuc a) (pos b) = not true

abbrev pub is_port : ℤ → Bool
is_port (pos n) = not (ltb n 1 || ltb 65535 n)
is_port (negsuc n) = not true

-- ValidateServerConfig
unfoldable pub validate_server_config : ServerConfig → Result Error (Unit {0})
validate_server_config c = do
  guard (c.tls_enabled || c.plain_enabled) no_listener
  guard
      (not (
        c.tls_enabled
        && (bytes_eq c.certificate_path []
            || bytes_eq c.private_key_path []
            || bytes_eq c.client_ca_path [])))
      no_server_credentials
  guard c.threshold_in_range invalid_threshold
  guard
      (is_port c.tls_port
        && is_port c.plain_port
        && not (c.tls_enabled && c.plain_enabled && same_port c.tls_port c.plain_port))
      invalid_ports

-- AddListener for each kind that is enabled. `opens` says which ports can be opened.
unfoldable pub add_listeners : (ℤ → Bool) → ServerConfig → Result Error (List (ℤ × Bool))
add_listeners opens c = do
  guard (not c.tls_enabled || opens c.tls_port) cannot_listen
  guard (not c.plain_enabled || opens c.plain_port) cannot_listen
  ok (
      (if c.tls_enabled then (c.tls_port, true) ∷ [] else [])
      ++ (if c.plain_enabled then (c.plain_port, false) ∷ [] else []))

-- The `try` of Start. `prepared` says whether the directory and the TLS context could be made.
unfoldable pub open_listeners : Bool → (ℤ → Bool) → ServerConfig → Result Error (List (ℤ × Bool))
open_listeners prepared opens c = do
  validate_server_config c
  guard prepared cannot_prepare
  add_listeners opens c

-- The end of Start: what failed is undone by Stop.
unfoldable pub started : Server → Result Error (List (ℤ × Bool)) → Server × Result Error (Unit {0})
started s (err e) = (record s { running = false; listeners = [] }, err e)
started s (ok listeners) = (record s { running = true; listeners = listeners }, ok tt)

-- Server::Impl::Start
unfoldable pub start : Bool → (ℤ → Bool) → Server → Server × Result Error (Unit {0})
start prepared opens s =
    if s.running then (s, ok tt) else started s (open_listeners prepared opens s.config)

-- `server_ && server_->Running()`
abbrev pub is_running : Option Server → Bool
is_running none = not true
is_running (some s) = s.running

unfoldable pub configured : Result Error ServerConfig → Manager → Manager × Result Error (Unit {0})
configured (err e) m = (m, err e)
configured (ok config) m = (record m { server_config = config; saved = some config }, ok tt)

-- UpdateServerConfig; `parsed` is what ServerConfigFromJson makes of the request.
unfoldable pub update_server_config :
    Result Error ServerConfig → Manager → Manager × Result Error (Unit {0})
update_server_config parsed m =
    if is_running m.server then (m, err stop_first) else configured parsed m

-- StartServer
unfoldable pub start_server : Bool → (ℤ → Bool) → Manager → Manager × Result Error (Unit {0})
start_server prepared opens m =
    if is_running m.server
    then (m, ok tt)
    else let made : Server = record { config = m.server_config; running = false; listeners = [] } in
      (record m { server = some (start prepared opens made).0 }, (start prepared opens made).1)

-- StopServer under the mutex: the server is moved into the local variable of the call.
unfoldable pub stop_server : Manager → Manager
stop_server m = record m {
  server = none;
  stopping = elim m.server [ none ↦ m.stopping | some s ↦ s ∷ m.stopping ];
}

-- The rest of StopServer, without the mutex: Stop() of one of these servers, and its destruction.
unfoldable pub finish_stop : ℕ → List Server → List Server
finish_stop n [] = []
finish_stop zero (s ∷ rest) = rest
finish_stop (suc n) (s ∷ rest) = s ∷ finish_stop n rest

-- StartClientJob: the entry that is made before its thread starts.
unfoldable pub start_client_job : Bytes → Manager → Manager
start_client_job id m = record m {
  jobs = insert id (record { status = queued; files = []; error = [] }) m.jobs;
}

-- The progress callback: the file's entry is replaced, or added.
unfoldable pub note_progress : FileProgress → List FileProgress → List FileProgress
note_progress p [] = p ∷ []
note_progress p (f ∷ fs) =
    let rest = note_progress p fs in if bytes_eq f.file_id p.file_id then p ∷ fs else f ∷ rest

-- `std::find_if` of a result with an error.
unfoldable pub first_error : List FileProgress → Option Bytes
first_error [] = none
first_error (f ∷ fs) =
    let rest = first_error fs in if bytes_eq f.error [] then rest else some f.error

-- The end of a job: Send has returned its results, or has thrown.
unfoldable pub end_job : Result Bytes (List FileProgress) → Job → Job
end_job (err what) j = record j { status = failed; error = what }
end_job (ok results) j = elim (first_error results) [
  | none ↦ record j { files = results; status = completed }
  | some e ↦ record j { files = results; status = failed; error = e }
]
