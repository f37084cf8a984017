-- ===== src/Apm/Begins/Entry.antt =====
-- The socket driver's list over the loop of RINIT through the drivers (apm.c and driver_socket.c).
use php_apm.Common.{Bool, true, false, List, [], ◌∷◌, ◌++◌, ◌≡◌, refl, sym, subst, arith}
use php_apm.Globals.{SocketState, Globals, events_cell}
use php_apm.Globals.Owners.{Owner, of_sqlite3, of_mysql, of_statsd, of_socket}
use php_apm.Socket
use php_apm.Apm.Drivers.{Build, only_if, built}
use php_apm.Apm.Ready.{HasLast}

-- The last entry of the list is there, or the socket driver is still to be begun.
abbrev pub Awaits : List Owner → Globals → Type 0
Awaits [] g = g.socket.settings.enabled ≡ true → HasLast g.socket
Awaits (of_sqlite3 ∷ os) g = Awaits os g
Awaits (of_mysql ∷ os) g = Awaits os g
Awaits (of_statsd ∷ os) g = Awaits os g
Awaits (of_socket ∷ os) g = Unit

pub rinit-HasLast : (s : SocketState) → HasLast (Socket.rinit s)
unfolding Socket.rinit
rinit-HasLast s = (events_cell, s.fresh, Socket.dummy, refl, refl, ground arith, omega arith)

pub listed :
    (os : List Owner) (g : Globals)
    → (g.socket.settings.enabled ≡ true → HasLast g.socket)
    → Awaits os g
listed [] g last = last
listed (of_sqlite3 ∷ os) g last = listed os g last
listed (of_mysql ∷ os) g last = listed os g last
listed (of_statsd ∷ os) g last = listed os g last
listed (of_socket ∷ os) g last = tt

pub Awaits-same :
    (os : List Owner) (g h : Globals) → h.socket ≡ g.socket → Awaits os g → Awaits os h
Awaits-same [] g h same =
    subst (λ (s : SocketState). s.settings.enabled ≡ true → HasLast s) (sym same)
Awaits-same (of_sqlite3 ∷ os) g h same = Awaits-same os g h same
Awaits-same (of_mysql ∷ os) g h same = Awaits-same os g h same
Awaits-same (of_statsd ∷ os) g h same = Awaits-same os g h same
Awaits-same (of_socket ∷ os) g h same = λ a. tt

Awaits-append : (os os' : List Owner) (g : Globals) → Awaits os' g → Awaits (os ++ os') g
Awaits-append [] os' g a = a
Awaits-append (of_sqlite3 ∷ os) os' g a = Awaits-append os os' g a
Awaits-append (of_mysql ∷ os) os' g a = Awaits-append os os' g a
Awaits-append (of_statsd ∷ os) os' g a = Awaits-append os os' g a
Awaits-append (of_socket ∷ os) os' g a = tt

only_if-Awaits :
    (c : Bool) (g : Globals)
    → (g.socket.settings.enabled ≡ true → c ≡ true)
    → Awaits (only_if c of_socket) g
only_if-Awaits true g linked = tt
only_if-Awaits false g linked = λ on. cc (linked on)

pub built-Awaits :
    (b : Build) (g : Globals)
    → (g.socket.settings.enabled ≡ true → b.driver_socket ≡ true)
    → Awaits (built b) g
unfolding built
built-Awaits b g linked =
    Awaits-append
      (only_if b.driver_sqlite3 of_sqlite3
        ++ only_if b.driver_mysql of_mysql
        ++ only_if b.driver_statsd of_statsd)
      (only_if b.driver_socket of_socket) g (only_if-Awaits b.driver_socket g linked)
