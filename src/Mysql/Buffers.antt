-- ===== src/Mysql/Buffers.antt =====
-- The sizes of driver_mysql.c's statements against their buffers.
use php_apm.Common.{
  ℕ, ◌+◌, ◌^◌, ◌≤◌, ◌<◌, pos, Bytes, decimal_ℤ, length, length-append, length-decimal-le, arith,
}
use php_apm.Mysql.{Fields, request_sql, request_size, event_sql, event_size, stats_sql, stats_size}

-- Whatever the request's fields are, the statement with its final NUL fits: the address is an
-- `unsigned int`, which takes ten digits at most.
pub request_sql_fits : (f : Fields) → f.ip < 2 ^ 32 → length (request_sql f) + 1 ≤ request_size f
unfolding request_sql request_size
request_sql_fits f h = simp length-append (omega (arith, length-decimal-le 9 f.ip))

-- Whatever the texts of an event are, its statement with the final NUL fits, for a type that is not
-- negative and a line of 32 bits.
pub event_sql_fits :
    (type lineno : ℕ) (filename msg trace : Bytes)
    → type < 2 ^ 31
    → lineno < 2 ^ 32
    → length (event_sql type filename lineno msg trace) + 1 ≤ event_size filename msg trace
unfolding event_sql event_size
event_sql_fits type lineno filename msg trace ht hl =
    simp length-append (omega (arith, length-decimal-le 9 type, length-decimal-le 9 lineno))

-- The statistics have a buffer of a fixed size: it is enough while the three times, as printed, have
-- at most 46 bytes together, which three times below a hundred million seconds have.
pub stats_sql_fits :
    (duration user_cpu sys_cpu : Bytes) (mem : ℕ)
    → length duration + length user_cpu + length sys_cpu ≤ 46
    → mem < 2 ^ 63
    → length (stats_sql duration user_cpu sys_cpu (pos mem)) + 1 ≤ stats_size
unfolding stats_sql decimal_ℤ
stats_sql_fits duration user_cpu sys_cpu mem h hm =
    simp length-append (omega (arith, length-decimal-le 18 mem))
