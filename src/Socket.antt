-- ===== src/Socket.antt =====
-- driver_socket.c, the part that keeps the request's events: a linked list with a dummy first entry
-- and a pointer to the cell that holds the last entry's address. Entries live on an explicit heap;
-- `calloc` and `malloc` give an address that was never used before, and do not fail.
pub mod Queue
pub mod Clear
pub mod Faults
pub mod Connect
pub mod Descriptors
pub mod Parts
pub mod Returns
pub mod Session
pub mod Reporting
pub mod Locality
pub mod Shutdown
mod Tests
use php_apm.Common.{
  ℕ, zero, suc, ◌+◌, Bool, true, false, ◌==◌, if◌then◌else◌, Option, none, some, Bytes, List, [],
  ◌∷◌,
}
use php_apm.Globals.{EventArgs, Ptr, EventEntry, Cell, events_cell, next_cell, Heap, SocketState}

abbrev pub write : Heap → Ptr → Option EventEntry → Heap
write h p c a = if a == p then c else h a

infixl 5 ◌>>=◌
abbrev pub ◌>>=◌ : {A B : Type 0} → Option A → (A → Option B) → Option B
none >>= f = none
some a >>= f = f a

-- `*cell`: the address that the cell holds.
abbrev pub deref : SocketState → Cell → Option Ptr
deref s events_cell = some s.events
deref s (next_cell p) = do e ← s.heap p; some e.next

abbrev pub dummy : EventEntry
dummy = record {
  type = 0;
  error_filename = none;
  error_lineno = 0;
  msg = none;
  trace = none;
  next = 0;
}

-- `apm_driver_socket_rinit`
unfoldable pub rinit : SocketState → SocketState
rinit s = record s {
  events = s.fresh;
  last_event = some events_cell;
  heap = write s.heap s.fresh (some dummy);
  fresh = s.fresh + 1;
}

-- The new entry behind the entry `e` at `p`, which was the last one.
unfoldable pub link : Ptr → EventEntry → EventEntry → SocketState → SocketState
link p e entry s = record s {
  last_event = some (next_cell p);
  heap = write (write s.heap p (some (record e { next = s.fresh }))) s.fresh (some entry);
  fresh = s.fresh + 1;
}

-- `apm_driver_socket_process_event`; `strlen` of a null pointer is a fault.
unfoldable pub process_event :
    (store_stacktrace : Bool) → EventArgs → SocketState → Option SocketState
unfolding link
process_event store_stacktrace args s = do
  cell ← s.last_event
  p ← deref s cell
  e ← s.heap p
  file ← args.error_filename
  msg ← args.msg
  let entry : EventEntry = record {
    type = args.type;
    error_filename = some file;
    error_lineno = args.error_lineno;
    msg = some msg;
    trace = if store_stacktrace then args.trace else none;
    next = 0;
  }
  some (link p e entry s)

-- `recursive_free_event` of the entry at `p`; the fuel bounds the length of the list.
unfoldable pub recursive_free_event : ℕ → Ptr → Heap → Option Heap
recursive_free_event zero p h = none
recursive_free_event (suc f) p h = do
  e ← h p
  rest ← let rest = recursive_free_event f e.next h in if e.next == 0 then some h else rest
  some (write rest p none)

-- `clear_events`; addresses below `fresh` are all that the list can hold.
unfoldable pub clear_events : SocketState → Option SocketState
unfolding recursive_free_event
clear_events s = do h ← recursive_free_event s.fresh s.events s.heap; some (record s { heap = h })

-- `APM_G(socket_events) != *APM_G(socket_last_event)`
unfoldable pub has_events : SocketState → Option Bool
has_events s = do
  cell ← s.last_event
  p ← deref s cell
  some (if s.events == p then false else true)

-- What `apm_driver_socket_rshutdown` puts into the array `error` for one event; `add_assoc_string_ex`
-- reads a null pointer as a string, which is a fault.
pub record Report : Type 0 where
  pub type : ℕ
  pub line : ℕ
  pub file : Bytes
  pub message : Bytes
  pub trace : Bytes

unfoldable pub report : EventArgs → Option Report
report x = do
  file ← x.error_filename
  message ← x.msg
  trace ← x.trace
  some (record {
    type = x.type;
    line = x.error_lineno;
    file = file;
    message = message;
    trace = trace;
  })

-- What an entry records, less its link.
abbrev pub payload : EventEntry → EventArgs
payload e = record {
  type = e.type;
  error_filename = e.error_filename;
  error_lineno = e.error_lineno;
  msg = e.msg;
  trace = e.trace;
}

-- The loop of `apm_driver_socket_rshutdown` over the entries, from the cursor `p`.
unfoldable pub errors_loop : ℕ → Ptr → Heap → Option (List Report)
errors_loop zero p h = none
errors_loop (suc f) p h = elim (p == 0) [
  | true ↦ some []
  | false ↦ do e ← h p; r ← report (payload e); rest ← errors_loop f e.next h; some (r ∷ rest)
]

-- `errors`: the loop starts behind the dummy entry.
unfoldable pub collect_errors : SocketState → Option (List Report)
unfolding errors_loop
collect_errors s = do e ← s.heap s.events; errors_loop s.fresh e.next s.heap

-- The reports of a list of events, if each can be reported.
unfoldable pub reports : List EventArgs → Option (List Report)
reports [] = some []
reports (x ∷ xs) = do r ← report x; rest ← reports xs; some (r ∷ rest)
