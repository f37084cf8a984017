-- ===== src/Apm/Served.antt =====
-- A whole request of a build: RINIT, the errors in it, RSHUTDOWN (apm.c).
mod Tests
use php_apm.Common.{
  ℕ, ◌^◌, ◌<◌, ◌≤◌, Bool, true, false, Bytes, length, some, List, ◌≡◌, sym, subst, ap, ◌∙◌, All,
  or_else,
}
use php_apm.World.{Env}
use php_apm.Globals.{StatsdState, DriverSettings, Globals, Run, Status, ◌>>=◌}
use php_apm.Globals.Runs.{continued}
use php_apm.Apm.{rinit, rshutdown}
use php_apm.Apm.Drivers.{Build, drivers, elastic}
use php_apm.Apm.Ready.{IsReady, SameSettings}
use php_apm.Apm.Returns.{Raised, IsRaised, error_cbs}
use php_apm.Apm.Begins.{IsStarted, request_errors_handled}
use php_apm.Apm.Reports.{IsPrinted, IsSteady}
use php_apm.Apm.Ends.{end_times, rshutdown_returns}

-- The callbacks of a whole request.
abbrev pub served : Env → Build → ℕ → List Raised → Run Status
served env b f rs =
    (rinit (drivers env b) (elastic env b) env >>= λ s. error_cbs env b f rs) >>= λ u.
    rshutdown (drivers env b) (elastic env b) env

short_prefix :
    (g h : Globals)
    → IsReady h
    → SameSettings g h
    → (g.statsd.settings.enabled ≡ true → length g.statsd.prefix ≤ 100)
    → g.socket.settings.enabled ≡ false
    → IsSteady h
short_prefix g h p (statsd, socket, _) short off = record {
  sound = p.sound;
  address = λ on. (
    (p.address on).0,
    subst (λ (s : StatsdState). s.settings.enabled ≡ true → length s.prefix ≤ 100) (sym statsd)
        short on,
  );
  off = ap (λ (s : DriverSettings). s.enabled) socket ∙ off;
}

-- A whole request of any build that does not use the socket driver, with PHP 7.0: where the
-- module is enabled when it begins, the depth of dumps is limited to 127 at most and the fuel is more;
-- where StatsD, if it is enabled, has the address that its MINIT found and a prefix of at most 100 bytes;
-- where the address reader gives 32 bits; where the times that RSHUTDOWN measures at the end are printed in
-- at most 15 bytes as seconds and 18 as milliseconds, the peak of the memory that it reads in 19 and the
-- response code in 11; and where for each error the chain of
-- the engine's frames ends at a distance below the fuel, and its type and line are the engine's: RINIT,
-- the callback for each error, however many there are, and RSHUTDOWN with its statistics return,
-- whatever else the system answers.
pub request_returns :
    (env : Env) (b : Build) (f : ℕ) (rs : List Raised) (g : Globals)
    → ((s : Bytes) → or_else (env.inet_pton s) 0 < 2 ^ 32)
    → 127 < f
    → g.settings.enabled ≡ true
    → IsStarted b g
    → (g.statsd.settings.enabled ≡ true → length g.statsd.prefix ≤ 100)
    → g.socket.settings.enabled ≡ false
    → All (IsRaised f) rs
    → ((k : Globals)
        → (rinit (drivers env b) (elastic env b) env >>= λ s. error_cbs env b f rs) g ≡ some (tt, k)
        → IsPrinted env (end_times env b k))
    → (s : Status) × (h : Globals) × (served env b f rs g ≡ some (s, h))
request_returns env b f rs g addr fuel on p short off raised printed =
    let (k, ran, q, same) = request_errors_handled env b f rs g addr fuel on p raised in
    let (s, h, e) =
      rshutdown_returns env b k (printed k ran) addr (short_prefix g k q same short off) in
    (s, h, continued (λ u. rshutdown (drivers env b) (elastic env b) env) ran ∙ e)
