-- ===== src/World.antt =====
-- What the extension calls outside its own sources, as a log of calls and an environment that
-- answers them. An answer may depend on all the calls made before. Floats of the program are bit
-- patterns here, and the operations on them are the environment's.
use php_apm.Common.{ℕ, ℤ, Bool, Bytes, Option, List}

-- A value bound into a statement by `sqlite3_mprintf`.
pub data SqlArg : Type 0 where
  arg_text : Bytes → SqlArg
  arg_num : ℤ → SqlArg
  arg_float : ℕ → SqlArg

-- What one curl transfer was set up with.
pub record Transfer : Type 0 where
  pub url : Bytes
  pub body : Bytes
  pub timeout : ℤ
  pub userpwd : Option Bytes

pub data Effect : Type 0 where
  zend_error : Bytes → Effect
  zend_printf : Bytes → Effect
  old_error_cb_called : ℕ → Bytes → ℕ → Effect
  mkdir : Bytes → Effect
  sqlite3_open : Bytes → Effect
  sqlite3_close : Effect
  sqlite3_busy_timeout : ℤ → Effect
  sqlite3_exec : Bytes → Effect
  mysql_library_init : Effect
  mysql_library_end : Effect
  mysql_real_connect : (host user passwd db : Option Bytes) → (port : ℕ) → Effect
  mysql_set_character_set : Bytes → Effect
  mysql_close : Effect
  mysql_query : Bytes → Effect
  opened : ℕ → Effect
  connected : ℕ → Bytes → Effect
  sent : ℕ → Bytes → Effect
  closed : ℕ → Effect
  getaddrinfo : Bytes → Bytes → Effect
  freeaddrinfo : Effect
  curl_global_init : Effect
  curl_global_cleanup : Effect
  curl_easy_perform : Transfer → Effect
  opcode_handler_called : Bool → Effect

-- The latest call first.
abbrev pub Log : Type 0
Log = List Effect

pub record Timeval : Type 0 where
  pub tv_sec : ℤ
  pub tv_usec : ℤ

pub record Rusage : Type 0 where
  pub ru_utime : Timeval
  pub ru_stime : Timeval

-- A PHP variable of $_SERVER.
pub data Var : Type 0 where
  text : Bytes → Var
  long : ℤ → Var
  other : Var

-- $_COOKIE or $_POST: how many elements it has, and what `zend_print_zval_r` makes of it.
pub record HttpArray : Type 0 where
  pub n_num_of_elements : ℕ
  pub printed : Bytes

-- What the socket driver puts into the array that it encodes.
pub data Scalar : Type 0 where
  json_string : Bytes → Scalar
  json_long : ℤ → Scalar
  json_double : ℕ → Scalar
  json_zval : Var → Scalar

pub data JsonValue : Type 0 where
  scalar : Scalar → JsonValue
  array : List (List (Bytes × Scalar)) → JsonValue

pub record Env : Type 0 where
  -- the arrays of `PG(http_globals)`, `none` for a null pointer
  pub http_server : Log → Option (List (Bytes × Var))
  pub http_cookie : Log → Option HttpArray
  pub http_post : Log → Option HttpArray
  -- the C library and the system
  pub time : Log → ℤ
  pub timestamp : Log → Bytes
  pub gettimeofday : Log → Timeval
  pub getrusage : Log → Option Rusage
  pub memory_usage : Log → ℤ
  pub memory_peak_usage : Bool → Log → ℤ
  pub http_response_code : Log → ℤ
  -- `none` is the failure value -1
  pub socket : Log → Option ℕ
  pub connect : Log → ℕ → Bytes → Bool
  -- `sizeof(serveraddr.sun_path)`
  pub sun_path_size : ℕ
  pub php_json_encode : List (Bytes × JsonValue) → Bytes
  pub resolves : Log → Bytes → Bytes → Bool
  -- the bits of `(float) (SEC_TO_USEC(b.tv_sec - a.tv_sec) + b.tv_usec - a.tv_usec)`
  pub elapsed : Timeval → Timeval → ℕ
  -- `x > 1000.0 * t`
  pub exceeds : ℕ → ℤ → Bool
  -- `%f` of `x / 1000` and of `x / 1000000.00`, and `%.2f` of a duration in ms
  pub print_msec : ℕ → Bytes
  pub print_sec : ℕ → Bytes
  -- the bits of `x / 1000000.00`, a double
  pub usec_to_sec : ℕ → ℕ
  pub print_duration : Timeval → Timeval → Bytes
  -- `inet_pton` of an address, in host order
  pub inet_pton : Bytes → Option ℕ
  -- databases and curl
  pub is_dir : Log → Bytes → Bool
  pub mkdir_ok : Log → Bytes → Bool
  pub access_ok : Log → Bytes → Bool
  pub sqlite3_open_ok : Log → Bytes → Bool
  pub sqlite3_exec_code : Log → Bytes → ℕ
  pub sqlite3_mprintf : Bytes → List SqlArg → Bytes
  pub sqlite3_last_insert_rowid : Log → ℕ
  pub mysql_connect_ok : Log → Bool
  pub mysql_real_escape_string : Bytes → Bytes
  pub curl_easy_init : Log → Bool
  pub curl_ok : Log → Transfer → Bool
