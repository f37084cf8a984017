-- ===== src/Apm/Served/Tests.antt =====
-- Two notices in a build with all drivers but the one for SQLite.
use php_apm.Common.{arith, true, false, codes, some, [], ◌∷◌, ◌≡◌, refl, decimal, decimal_ℤ}
use php_apm.Globals.{events_cell, Globals, Status, ◌>>=◌}
use php_apm.Socket
use php_apm.Socket.{dummy}
use php_apm.Fixture.{env, globals}
use php_apm.Apm.{rinit, measured}
use php_apm.Apm.Drivers.{Build, drivers, elastic}
use php_apm.World.{old_error_cb_called}
use php_apm.Request.Extract.{IsSound}
use php_apm.Apm.Ready.{IsReady, SameSettings}
use php_apm.Apm.Returns.{Raised, IsRaised, error_cb, error_cbs, apm_error_cb_returns}
use php_apm.Apm.Begins.{IsStarted, request_errors_handled}
use php_apm.Backtrace.Walk.Sample.{engine, store, no_counts, distance, chain, near}
use php_apm.Apm.Reports.{IsPrinted}
use php_apm.Apm.Ends.{end_times}
use php_apm.Apm.Served.{served, request_returns}

abbrev build : Build
build = record {
  driver_sqlite3 = false;
  driver_mysql = true;
  driver_statsd = true;
  driver_socket = true;
  have_curl = true;
}

abbrev ready : Globals
ready = record globals { statsd = record globals.statsd { servinfo = true } }

abbrev listening : Globals
listening = record ready { socket = Socket.rinit globals.socket }

request_data-IsSound : IsSound listening.request_data
request_data-IsSound = ground arith

listening-IsReady : IsReady listening
unfolding Socket.rinit
listening-IsReady = record {
  sound = request_data-IsSound;
  address = λ on. (refl, omega arith);
  last = λ on. (events_cell, 1, dummy, refl, refl, refl, omega arith);
  depth = omega arith;
}

abbrev notice : Raised
notice = record {
  engine = engine;
  distance = distance;
  store = store;
  counts = no_counts;
  type = 8;
  file = codes "a.php";
  lineno = 12;
  msg = codes "m";
}

notice-IsRaised : IsRaised 128 notice
notice-IsRaised = (chain, λ p e. (let n = near p e in omega arith), omega arith, omega arith)

apm_error_cb_returns_example :
    (h : Globals) × (error_cb env build 128 notice listening
      ≡ some (tt, record h { log = old_error_cb_called 8 (codes "m") 12 ∷ h.log }))
    × IsReady h
    × SameSettings listening h
apm_error_cb_returns_example =
    apm_error_cb_returns env build 128 (λ s. omega arith) (omega arith) notice listening
      notice-IsRaised listening-IsReady

ready-IsStarted : IsStarted build ready
ready-IsStarted = record {
  address = λ on. (refl, omega arith);
  linked = λ on. refl;
  depth = omega arith;
}

request_errors_handled_example :
    (h : Globals) × ((rinit (drivers env build) (elastic env build) env >>= λ s.
    error_cbs env build 128 (notice ∷ notice ∷ []))
        ready
      ≡ some (tt, h))
    × IsReady h
    × SameSettings ready h
request_errors_handled_example =
    request_errors_handled env build 128 (notice ∷ notice ∷ []) ready (λ s. omega arith)
      (omega arith) refl ready-IsStarted (notice-IsRaised, (notice-IsRaised, tt))

measured-IsPrinted : (k : Globals) → IsPrinted env (end_times env build k)
unfolding measured decimal decimal_ℤ
measured-IsPrinted k = record {
  duration = omega arith;
  user_cpu = omega arith;
  sys_cpu = omega arith;
  duration_ms = omega arith;
  user_cpu_ms = omega arith;
  sys_cpu_ms = omega arith;
  memory = omega arith;
  code = λ l. omega arith;
}

-- The socket driver is built and not enabled.
abbrev quiet : Globals
quiet = record ready {
  socket = record ready.socket { settings = record ready.socket.settings { enabled = false } };
}

quiet-IsStarted : IsStarted build quiet
quiet-IsStarted = record {
  address = λ on. (refl, omega arith);
  linked = λ on. refl;
  depth = omega arith;
}

request_returns_example :
    (s : Status) × (h : Globals) × (served env build 128 (notice ∷ notice ∷ []) quiet ≡ some (s, h))
request_returns_example =
    request_returns env build 128 (notice ∷ notice ∷ []) quiet (λ s. omega arith) (omega arith) refl
      quiet-IsStarted (λ on. omega arith) refl (notice-IsRaised, (notice-IsRaised, tt))
      (λ k ran. measured-IsPrinted k)
