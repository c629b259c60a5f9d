-- ===== src/Tests/Served.antt =====
-- A client that connects to a worker and sends three requests.
use warp_api.EventLoop.{Worker, new_worker}
use warp_api.Ring.{NewBuffer}
use warp_api.Settings.{SettingsData}
use warp_api.Tests.Given.{flat_ring}
use warp_api.Tests.Serving.{no_digest}
use warp_api.Tests.Events.{nodes}
use warp_api.Prelude.{[], codes, refl}

abbrev pub flat_buffers : NewBuffer flat_ring
flat_buffers = record {
  make = λ size. ([], size);
  contents-make = λ size. refl;
  write_space-make = λ size. refl;
  first_whole = λ size bytes h. refl;
}

abbrev pub settings : SettingsData
settings = record {
  port = 8080;
  ip = codes "0.0.0.0";
  max_threads = 2;
  backlog_size = 128;
  connection_timeout_ms = 60000;
  max_body_size = 100;
  max_request_size = 4096;
  max_response_size = 4096;
}

abbrev empty_worker : Worker nodes flat_ring no_digest
empty_worker = new_worker nodes flat_ring no_digest
