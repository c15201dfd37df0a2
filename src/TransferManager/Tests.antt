-- ===== src/TransferManager/Tests.antt =====
-- backend/src/transfer/transfer_manager.cpp: the theorem at a concrete run.
use space_station.Prelude.{[], false, none, refl, true, ◌≡◌}
use space_station.Prelude.Bytes.{text}
use space_station.TransferManager.Reach.{
  Sound, fresh, Reach-Sound, next, here, starts, stops, finishes, sends,
}
use space_station.Prelude.Dict.{lookup}
use space_station.TransferManager.{
  start_server, stop_server, finish_stop, ServerConfig, Manager, pos, start_client_job, start,
  started, open_listeners, validate_server_config, add_listeners, is_running,
}

abbrev config : ServerConfig
config = record {
  tls_enabled = false;
  tls_port = pos 9443;
  plain_enabled = true;
  plain_port = pos 9080;
  certificate_path = [];
  private_key_path = [];
  client_ca_path = [];
  threshold_in_range = true;
}

abbrev served : Manager
served = (start_server true (λ p. true) (fresh config)).0

abbrev stopped : Manager
stopped = stop_server served

abbrev finished : Manager
finished = record stopped { stopping = finish_stop 0 stopped.stopping }

abbrev sending : Manager
sending = start_client_job (text "1") finished

new_job : lookup (text "1") finished.jobs ≡ none
unfolding lookup start_server stop_server
new_job = refl

Reach-Sound_example : Sound sending
Reach-Sound_example = Reach-Sound config (
    next (next (next (next here (starts true (λ p. true))) stops) (finishes 0))
      (sends (text "1") new_job))

it_serves : is_running served.server ≡ true
unfolding start_server start started open_listeners validate_server_config add_listeners
it_serves = refl
