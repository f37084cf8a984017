-- ===== src/Socket/Clear.antt =====
-- A request's event list from `rinit` to its report and to `clear_events`, in driver_socket.c.
use php_apm.Common.{
  ℕ, zero, suc, ◌+◌, ◌≤◌, ◌<◌, Bool, true, false, ◌||◌, ◌==◌, if◌then◌else◌, Option, none, some,
  List, [], ◌∷◌, ◌++◌, ◌≡◌, refl, arith, Bytes, length, is_some, not, sym, ap, ◌∙◌, append-nil,
  append_assoc, All,
}
use php_apm.Globals.{EventArgs, Ptr, EventEntry, Heap, SocketState}
use php_apm.Socket.{
  write, ◌>>=◌, rinit, process_event, recursive_free_event, clear_events, has_events, errors_loop,
  collect_errors, reports,
}
use php_apm.Socket.Queue.{
  Cells, has, events_of, Chain, IsQueue, Chain-le, recorded, rinit-IsQueue, process_event-IsQueue,
}

abbrev pub is_cons {ℓ} : {A : Type ℓ} → List A → Bool
is_cons [] = false
is_cons (_ ∷ _) = true

some_of : (o : Option Bytes) → is_some o ≡ true → (b : Bytes) × (o ≡ some b)
some_of none h = cc
some_of (some b) h = (b, refl)

events_of-append : (cs ds : Cells) → events_of (cs ++ ds) ≡ events_of cs ++ events_of ds
events_of-append [] ds = refl
events_of-append ((r, x) ∷ cs) ds = rw (events_of-append cs ds)

module _ (h : Heap) where
  -- The addresses rise, so a list is no longer than its last address.
  length-Chain : (p q : Ptr) (cs : Cells) → Chain h p q cs → p + length cs ≤ q
  length-Chain p q [] c = omega arith
  length-Chain p q ((r, x) ∷ cs) c = omega (arith, length-Chain r q cs c.3)

  recursive_free_event-Chain :
      (f : ℕ) (p q : Ptr) (cs : Cells)
      → Chain h p q cs
      → length cs < f
      → (h' : Heap) × (recursive_free_event f p h ≡ some h')
        × ((a : Ptr) → h' a ≡ (if (a == p) || has a cs then none else h a))
  unfolding recursive_free_event
  recursive_free_event-Chain zero p q cs c fuel = absurd (omega arith)
  recursive_free_event-Chain (suc f) p q [] (here, (e, at, end)) fuel =
      (write h p none, rw (at, end), λ a. ground arith)
  recursive_free_event-Chain (suc f) p q ((r, x) ∷ cs) (lt, (e, at, n), _, c) fuel =
      let (h', freed, is) = recursive_free_event-Chain f r q cs c (omega arith) in
      let more : (r == 0) ≡ false = ground arith in
      (write h' p none, rw (at, n, more, freed), λ a. ground (arith, is a))

  errors_loop-Chain :
      (f : ℕ) (p q : Ptr) (cs : Cells) (e : EventEntry)
      → Chain h p q cs
      → h p ≡ some e
      → length cs < f
      → errors_loop f e.next h ≡ reports (events_of cs)
  unfolding errors_loop reports
  errors_loop-Chain zero p q cs e c at fuel = absurd (omega arith)
  errors_loop-Chain (suc f) p q [] e (here, (e', at', end)) at fuel =
      let last : e.next ≡ 0 = ground arith in rw last
  errors_loop-Chain (suc f) p q ((r, x) ∷ cs) e (lt, (e0, at0, n0), (e1, at1, is1), c) at fuel =
      let to : e.next ≡ r = ground arith in
      let more : (r == 0) ≡ false = ground arith in
      rw to (ground (arith, errors_loop-Chain f r q cs e1 c at1 (omega arith)))

  Chain-head : (p q : Ptr) (cs : Cells) → Chain h p q cs → (e : EventEntry) × (h p ≡ some e)
  Chain-head p q [] (here, (e, at, end)) = (e, at)
  Chain-head p q (x ∷ cs) (lt, (e, at, n), _, rest) = (e, at)

  last-eq-head : (p q : Ptr) (cs : Cells) → Chain h p q cs → (p == q) ≡ not (is_cons cs)
  last-eq-head p q [] c = ground arith
  last-eq-head p q ((r, x) ∷ cs) c = ground (arith, Chain-le h r q cs c.3)

module _ {start : Heap} {s : SocketState} {last : Ptr} {cs : Cells}
    (q : IsQueue start s last cs) where
  collect_errors-IsQueue : collect_errors s ≡ reports (events_of cs)
  unfolding collect_errors
  collect_errors-IsQueue =
      let (e, at) = Chain-head s.heap s.events last cs q.chain in
      rw at (
        errors_loop-Chain s.heap s.fresh s.events last cs e q.chain at
          (omega (arith, q.last_lt, length-Chain s.heap s.events last cs q.chain)))

  has_events-IsQueue : has_events s ≡ some (is_cons cs)
  unfolding has_events
  has_events-IsQueue =
      rw (q.cell_eq, q.cell_holds) (ground (arith, last-eq-head s.heap s.events last cs q.chain))

  clear_events-IsQueue :
      (t : SocketState) × (clear_events s ≡ some t) × ((a : Ptr) → t.heap a ≡ start a)
  unfolding clear_events
  clear_events-IsQueue =
      let (h', freed, is) =
        recursive_free_event-Chain s.heap s.fresh s.events last cs q.chain
          (omega (arith, q.last_lt, length-Chain s.heap s.events last cs q.chain)) in
      (record s { heap = h' }, rw freed, λ a. ground (arith, is a, q.outside a, q.inside a))

-- `process_event` for each event in turn.
unfoldable pub process_events : Bool → List EventArgs → SocketState → Option SocketState
process_events store_stacktrace [] s = some s
process_events store_stacktrace (x ∷ xs) s =
    process_event store_stacktrace x s >>= process_events store_stacktrace xs

abbrev pub map_recorded : Bool → List EventArgs → List EventArgs
map_recorded store_stacktrace [] = []
map_recorded store_stacktrace (x ∷ xs) =
    recorded store_stacktrace x ∷ map_recorded store_stacktrace xs

-- The engine always has a file name and a message for an event.
abbrev pub IsNamed : EventArgs → Type 0
IsNamed x = (is_some x.error_filename ≡ true) × (is_some x.msg ≡ true)

process_events-IsQueue :
    {start : Heap} (store_stacktrace : Bool) (xs : List EventArgs) {s : SocketState} {last : Ptr}
    {cs : Cells}
    → IsQueue start s last cs
    → All IsNamed xs
    → (t : SocketState) × (last' : Ptr) × (ds : Cells) × (process_events store_stacktrace xs s
        ≡ some t)
      × (events_of ds ≡ events_of cs ++ map_recorded store_stacktrace xs)
      × IsQueue start t last' ds
unfolding process_events
process_events-IsQueue store_stacktrace [] {s} {last} {cs} q named =
    (s, last, cs, refl, sym (append-nil (events_of cs)), q)
process_events-IsQueue store_stacktrace (x ∷ xs) {s} {last} {cs} q ((f, m), named) =
    let (file, is_file) = some_of x.error_filename f in
    let (msg, is_msg) = some_of x.msg m in
    let (t, pushed, q') = process_event-IsQueue store_stacktrace x file msg q is_file is_msg in
    let (u, last', ds, eq, evs, q'') = process_events-IsQueue store_stacktrace xs q' named in
    (u, last', ds, rw pushed eq, rw (evs, events_of-append) (append_assoc (events_of cs) _ _), q'')

is_cons-events_of : (cs : Cells) (xs : List EventArgs) → events_of cs ≡ xs → is_cons cs ≡ is_cons xs
is_cons-events_of [] [] e = refl
is_cons-events_of [] (x ∷ xs) e = cc
is_cons-events_of ((r, x) ∷ cs) [] e = cc
is_cons-events_of (c ∷ cs) (x ∷ xs) e = refl

is_cons-map_recorded :
    (store_stacktrace : Bool) (xs : List EventArgs)
    → is_cons (map_recorded store_stacktrace xs) ≡ is_cons xs
is_cons-map_recorded store_stacktrace [] = refl
is_cons-map_recorded store_stacktrace (x ∷ xs) = refl

-- A request from `rinit` on, with any events: none of them faults, what `rshutdown` would report is
-- exactly the recorded events in the order in which they came (and it sees an empty list exactly when
-- none came), and `clear_events` then frees every entry once and leaves the heap as it was before the
-- request. The events have a file name and a message, and `malloc` gives unused addresses.
pub session :
    (store_stacktrace : Bool) (xs : List EventArgs) (s : SocketState)
    → All IsNamed xs
    → 0 < s.fresh
    → ((a : Ptr) → s.fresh ≤ a → s.heap a ≡ none)
    → (t u : SocketState) × (process_events store_stacktrace xs (rinit s) ≡ some t)
      × (collect_errors t ≡ reports (map_recorded store_stacktrace xs))
      × (has_events t ≡ some (is_cons xs))
      × (clear_events t ≡ some u)
      × ((a : Ptr) → u.heap a ≡ s.heap a)
session store_stacktrace xs s named pos unused =
    let (t, last, ds, ran, evs, q) =
      process_events-IsQueue store_stacktrace xs (rinit-IsQueue s pos unused) named in
    let (u, cleared, same) = clear_events-IsQueue q in
    (
      t,
      u,
      ran,
      rw (← evs) (collect_errors-IsQueue q),
      has_events-IsQueue q
          ∙ ap some (
              is_cons-events_of ds (map_recorded store_stacktrace xs) evs
              ∙ is_cons-map_recorded store_stacktrace xs),
      cleared,
      same,
    )
