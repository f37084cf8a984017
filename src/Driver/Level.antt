-- ===== src/Driver/Level.antt =====
-- The engine's error levels that the sources name, and E_EXCEPTION of php_apm.h.
use php_apm.Common.{ℕ}

abbrev pub e_error : ℕ
e_error = 1

abbrev pub e_warning : ℕ
e_warning = 2

abbrev pub e_parse : ℕ
e_parse = 4

abbrev pub e_notice : ℕ
e_notice = 8

abbrev pub e_core_error : ℕ
e_core_error = 16

abbrev pub e_core_warning : ℕ
e_core_warning = 32

abbrev pub e_compile_error : ℕ
e_compile_error = 64

abbrev pub e_compile_warning : ℕ
e_compile_warning = 128

abbrev pub e_user_error : ℕ
e_user_error = 256

abbrev pub e_user_warning : ℕ
e_user_warning = 512

abbrev pub e_user_notice : ℕ
e_user_notice = 1024

abbrev pub e_strict : ℕ
e_strict = 2048

abbrev pub e_recoverable_error : ℕ
e_recoverable_error = 4096

abbrev pub e_deprecated : ℕ
e_deprecated = 8192

abbrev pub e_user_deprecated : ℕ
e_user_deprecated = 16384

-- E_EXCEPTION
abbrev pub e_exception : ℕ
e_exception = 32768

-- APM_E_ALL
abbrev pub e_all : ℕ
e_all = 32767
