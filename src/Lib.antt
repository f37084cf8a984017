-- ===== src/Lib.antt =====
-- PHP APM, an extension of PHP that watches an application: it hooks into the engine, turns errors and
-- exceptions into events, and hands the events and a request's statistics to a list of drivers. This
-- library models the extension's own logic.
--
-- The parts and their files:
--
--   * World: what the sources call outside themselves. A call with an effect is an entry of a log, the
--     latest first; an answer is a function of the record Env, which may depend on the log. Nothing is
--     assumed of an answer but where a theorem says so. Floats are bit patterns, and the operations on
--     them answers.
--   * Globals: the module globals of php_apm.h with the process-wide variables of apm.c and
--     driver_socket.c, and the monad Run (the globals and the log as a state; `none` is undefined
--     behaviour: a null or dangling pointer that is read, a buffer that is overrun). Globals/Runs has
--     the lemmas on finished runs, Globals/Owners the drivers' parts of the globals.
--   * Driver: `struct apm_driver` and APM_DRIVER_CREATE of php_apm.h; Driver/Filter is about the filter
--     `apm_driver_<name>_want_event`.
--   * Request: `extract_data` of apm.c, the request's data that the drivers share; Request/Extract and
--     Request/Returns.
--   * Apm: apm.c, the module's and the request's start and end, the callbacks for errors, exceptions and
--     the silence operator, and the loops over the drivers. Apm/Dispatch is about `process_event`,
--     Apm/Hooks about RINIT and RSHUTDOWN, Apm/Silence about the two opcode handlers. Apm/Drivers is
--     the list of drivers that PHP_GINIT_FUNCTION makes in a build, Apm/Entries the same list linked in
--     memory, from there to PHP_GSHUTDOWN_FUNCTION, and Apm/Locality, Apm/Composed and
--     Apm/Whole are about the module with that list; Apm/Traced joins `process_event` and the traces of
--     PHP 7, and Apm/Ready, Apm/Returns and Apm/Begins follow the errors of a request, from
--     RINIT on, to their ends, and Apm/Reports, Apm/Ends and Apm/Served the whole request.
--   * Backtrace: backtrace.c, the text of a trace. Backtrace/Frame is what is read of a frame and how a
--     call is named, Backtrace/Walk `append_backtrace`, with Walk/Ends, Walk/Lines and Walk/Trace;
--     Backtrace/Walk5 is the same for PHP 5, with Walk5/Trace and Walk5/Ends;
--     Backtrace/Chain is about the way from a frame to its predecessor.
--     Backtrace/Slashes is `apm_addslashes` on lists and Backtrace/Buffer its loop in memory,
--     Backtrace/Value what is read of PHP's values, Backtrace/Dump `append_flat_zval_r` and
--     `append_flat_hash` for PHP 5 and PHP 7, with Dump/Counters and Dump/Depth.
--   * Socket: driver_socket.c, the linked list of a request's events on an explicit heap;
--     Socket/Queue, Socket/Clear and Socket/Faults. Socket/Connect is the loop over the socket path,
--     with Socket/Descriptors, Socket/Parts and Socket/Returns; Socket/Shutdown is
--     `apm_driver_socket_rshutdown`, with Socket/Session, Socket/Reporting and Socket/Locality.
--   * Elasticsearch: driver_elasticsearch.c, documents in batches; Elasticsearch/Batch and
--     Elasticsearch/Lines.
--   * Mysql: driver_mysql.c, statements over one connection; Mysql/Buffers, Mysql/Account, Mysql/Rows,
--     Mysql/Returns.
--   * Sqlite3: driver_sqlite3.c, statements over a connection of the request; Sqlite3/Connection and
--     Sqlite3/Returns.
--   * Statsd: driver_statsd.c, one packet an event; Statsd/Packets.
--   * Ini: the INI table of apm.c, from PHP_INI_BEGIN to PHP_INI_END, and the handlers of its entries.
--     Ini/Members are the settings that the entries name, Ini/Table the entries; Ini/Path is about
--     `OnUpdateDBFile`, Ini/Stable about what calls of handlers leave as it is, Ini/Names about the
--     names, Ini/Scripts about what scripts set, Ini/Silenced about silenced events, Ini/Late about
--     `apm.socket_enabled` within a request, Ini/Defaults, Ini/Registered and Ini/Start about the
--     defaults and the module's start with them.
--   * Common: shared helpers. Fixture: a concrete environment. The modules Tests evaluate the parts.
--
-- The parts meet in the record Driver: `create` fills it with a driver's functions, and Apm runs over
-- any list of such records. Numbers are native; a byte is a number, a `char` depth is counted modulo 256
-- and read with its sign, and the return of `atoi` is a 32-bit pattern. Strings are
-- shorter than 2^30 bytes, so that the `uint` and `int` lengths of `apm_addslashes` hold theirs.
--
-- Fuel: the loops over the linked list have as much as there were addresses given out, which the links
-- reach at most once each. The dump of a value has its fuel as an argument, one for each nesting of
-- tables; Backtrace/Dump/Depth says how much is enough, and without a limit none may be. The walk over
-- the frames has one argument as the fuel of its loops and of the dumps; Walk/Ends and Walk5/Ends say
-- how much is enough, by a measure that falls along the chain of frames. The loops over the
-- list of drivers have five, one more than there are drivers. The loop over the socket path
-- has the length of the path, of which a round takes a byte at least.
--
-- Settings: the engine's handlers OnUpdateBool, OnUpdateString, OnUpdateLong and OnUpdateLongGEZero are
-- the record Ini.Engine; of them is assumed, where a theorem says so, that "1" and "0" are read as
-- switches, decimals as numbers, and texts taken as they are. A script reaches a handler only where the
-- entry has the bit PHP_INI_USER.
--
-- Versions: where PHP 5 and PHP 7 differ in backtrace.c both are modelled; apm.c with its callbacks is
-- modelled for PHP 7.0. From PHP 7.1 on `extract_data` leaves the printed cookies and POST variables
-- without their final NUL, which the drivers for MySQL and SQLite read up to; nothing here speaks of that.
--
-- Not modelled: the reading of the configuration files, MINFO, the debug output and the build.
-- `append_backtrace` is an argument of Apm's functions, which Apm/Traced gives; the engine's frames are
-- an argument of that. `malloc` does not fail.
pub mod Common
pub mod World
pub mod Globals
pub mod Driver
pub mod Request
pub mod Fixture
pub mod Socket
pub mod Backtrace
pub mod Elasticsearch
pub mod Mysql
pub mod Sqlite3
pub mod Statsd
pub mod Apm
pub mod Ini
