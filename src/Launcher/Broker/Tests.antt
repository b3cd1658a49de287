-- ===== src/Launcher/Broker/Tests.antt =====
-- Two brokers, of which the second has a client in the first turn of a wait of 200 ms.
use serena_de.Launcher.Broker.{Broker, answered}
use serena_de.Launcher.Session.{World, Session, start}
use serena_de.Prelude.Int.{pos}
use serena_de.Prelude.{◌+◌, ◌*◌, ◌&&◌, true, false, [], ◌∷◌, none, some, ◌==◌}

abbrev world : World
world = record {
  binaries = [];
  socket_paths = [];
  child = λ i. some (100 + i);
  window_ready = true;
  service_ready = λ i. true;
  script = none;
  has_co_app = false;
  script_turns = [];
  co_app_turns = [];
  settle_turns = [];
  verdict = 0;
}

abbrev brokers : Broker
brokers = record {
  listener_fds = pos 5 ∷ pos 6 ∷ [];
  now = λ k. 100 * k;
  select = λ k. answered (λ fd. k == 1 && fd == 6);
  accepts = λ k i. true;
}

abbrev session : Session
session = start
