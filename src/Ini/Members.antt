-- ===== src/Ini/Members.antt =====
-- The members of the module globals that the INI table names: the settings in php_apm.h, under their
-- names there.
mod Shared
mod Databases
mod Network
pub use Shared.*
pub use Databases.*
pub use Network.*
