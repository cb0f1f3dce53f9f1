-- ===== src/Server/Shutdown/Tests.antt =====
-- The process of a concrete server.
use nexlog_server.Base.{◌+◌, ◌<◌, refl, [], ◌∷◌, some}
use nexlog_server.Samples.{put_site}
use nexlog_server.Server.Boot.Sample.{some_host, new_db, some_server, some_server_boots}
use nexlog_server.Server.Shutdown.{
  Process, sigint, sigterm, announce, take_signal, started, serve_returned,
}
use nexlog_server.Server.Shutdown.Steps.{signal, listen, accept, pass, Reach, here, next}
use nexlog_server.Server.Shutdown.Ends.{EndsBy, Reach-CanEnd}
use nexlog_server.Server.Shutdown.Hang.{at_once, Hangs, Quiet-serve_returned}

-- It listens and has accepted a request.
abbrev accepting : Process some_host
accepting =
    let p = announce (started some_server 7) in record p { active = put_site ∷ []; accepted = 1 }

accepting_reached : Reach (started some_server 7) accepting
unfolding announce
accepting_reached = next (next here (listen refl refl)) (accept put_site refl refl)

-- Then a signal has come, three nanoseconds later.
abbrev asked : Process some_host
asked = record accepting { quit = some sigint; signals = 1; clock = 10 }

asked_reached : Reach (started some_server 7) asked
unfolding announce
asked_reached = next (next accepting_reached (signal sigint refl)) (pass 3)

-- `main` has taken it.
abbrev draining : Process some_host
draining = take_signal asked

Reach-CanEnd_example :
    (0 < asked.signals → EndsBy (asked.clock + 15_000_000_000) asked)
    × EndsBy (asked.clock + 15_000_000_000) (record asked { signals = 2 })
unfolding announce
Reach-CanEnd_example =
    Reach-CanEnd new_db some_server 7 asked sigterm some_server_boots asked_reached refl

Quiet-serve_returned_example :
    Reach
      (started some_server 7)
      (serve_returned (some "address in use") (announce (started some_server 7)))
    × Hangs (serve_returned (some "address in use") (announce (started some_server 7)))
Quiet-serve_returned_example =
    Quiet-serve_returned new_db some_server 7 "address in use" _ some_server_boots (λ e. cc) at_once
