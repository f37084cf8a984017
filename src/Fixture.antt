-- ===== src/Fixture.antt =====
-- A concrete environment and concrete globals, at which the tests of all parts evaluate.
use php_apm.Common.{pos, true, false, codes, none, some, [], ◌∷◌}
use php_apm.World.{text, long, other, Env}
use php_apm.Globals.{DriverSettings, Globals, other_hook}
use php_apm.Request.{empty_request_data}

abbrev pub env : Env
env = record {
  http_server = λ l. some (
      (codes "REQUEST_URI", text (codes "/a"))
      ∷ (codes "HTTP_HOST", other)
      ∷ (codes "REQUEST_TIME", long (pos 9))
      ∷ (codes "REMOTE_ADDR", text (codes "::1"))
      ∷ []);
  http_cookie = λ l. some (record { n_num_of_elements = 1; printed = codes "Array" });
  http_post = λ l. none;
  time = λ l. pos 9;
  timestamp = λ l. codes "2015-01-01T00:00:00Z";
  gettimeofday = λ l. record { tv_sec = pos 9; tv_usec = pos 0 };
  getrusage = λ l. none;
  memory_usage = λ l. pos 1;
  memory_peak_usage = λ b l. pos 2;
  http_response_code = λ l. pos 200;
  socket = λ l. some 5;
  connect = λ l fd addr. true;
  sun_path_size = 108;
  php_json_encode = λ fields. codes "{}";
  resolves = λ l host port. true;
  elapsed = λ a b. 1;
  exceeds = λ x t. true;
  print_msec = λ x. codes "0.000001";
  print_sec = λ x. codes "0.000000";
  usec_to_sec = λ x. x;
  print_duration = λ a b. codes "0.00";
  inet_pton = λ s. none;
  is_dir = λ l p. true;
  mkdir_ok = λ l p. true;
  access_ok = λ l p. true;
  sqlite3_open_ok = λ l p. true;
  sqlite3_exec_code = λ l q. 0;
  sqlite3_mprintf = λ f args. f;
  sqlite3_last_insert_rowid = λ l. 7;
  mysql_connect_ok = λ l. true;
  mysql_real_escape_string = λ s. s;
  curl_easy_init = λ l. true;
  curl_ok = λ l t. true;
}

abbrev pub driver_settings : DriverSettings
driver_settings = record {
  enabled = true;
  stats_enabled = true;
  exception_mode = 1;
  error_reporting = 32767;
  process_silenced_events = true;
}

abbrev pub globals : Globals
globals = record {
  settings = record {
    enabled = true;
    application_id = some (codes "app");
    event_enabled = true;
    store_stacktrace = true;
    store_ip = false;
    store_cookies = true;
    store_post = true;
    stats_duration_threshold = pos 100;
    stats_user_cpu_threshold = pos 100;
    stats_sys_cpu_threshold = pos 10;
    dump_max_depth = pos 1;
  };
  currently_silenced = false;
  request_data = empty_request_data;
  duration = 0;
  mem_peak_usage = pos 0;
  user_cpu = 0;
  sys_cpu = 0;
  begin_tp = record { tv_sec = pos 0; tv_usec = pos 0 };
  begin_usg = none;
  zend_error_cb = other_hook 0;
  old_error_cb = other_hook 0;
  throw_exception_hook = none;
  begin_silence_handler = none;
  end_silence_handler = none;
  orig_begin_silence_handler = none;
  orig_end_silence_handler = none;
  sqlite3 = record {
    settings = driver_settings;
    db_path = some (codes "/db");
    db_file = codes "/db/events";
    event_db = false;
    timeout = pos 100;
    request_id = 0;
    is_request_created = false;
  };
  mysql = record {
    settings = driver_settings;
    db_host = some (codes "localhost");
    db_port = 0;
    db_user = some (codes "root");
    db_pass = some [];
    db_name = some (codes "apm");
    event_db = false;
    is_request_created = false;
  };
  statsd = record {
    settings = driver_settings;
    host = codes "localhost";
    port = 8125;
    prefix = codes "apm";
    servinfo = false;
  };
  socket = record {
    settings = driver_settings;
    path = codes "file:/a|tcp:h:1";
    events = 0;
    last_event = none;
    heap = λ p. none;
    fresh = 1;
  };
  elasticsearch = record {
    settings = driver_settings;
    host = codes "localhost";
    port = pos 9200;
    index = codes "php-apm";
    user = some [];
    pass = some [];
    username = some [];
    password = some [];
    batch_size = pos 2;
    batch_timeout = pos 3;
    batch_buffer = none;
    batch_count = 0;
  };
  log = [];
}
