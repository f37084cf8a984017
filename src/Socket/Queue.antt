-- ===== src/Socket/Queue.antt =====
-- What the event list of driver_socket.c stands for, from `rinit` on.
use php_apm.Common.{
  ◌≤◌, ◌<◌, Bool, true, false, ◌||◌, ◌==◌, if◌then◌else◌, none, some, List, [], ◌∷◌, ◌++◌, ◌≡◌,
  refl, arith, Bytes, inl, inr, Bool-cases,
}
use php_apm.Globals.{EventArgs, Ptr, EventEntry, Cell, events_cell, next_cell, Heap, SocketState}
use php_apm.Socket.{write, deref, dummy, rinit, link, process_event, payload}

-- The entries behind the dummy: address and event of each, in order.
abbrev pub Cells : Type 0
Cells = List (Ptr × EventArgs)

abbrev pub has : Ptr → Cells → Bool
has a [] = false
has a ((p, _) ∷ cs) = (a == p) || has a cs

abbrev pub events_of : Cells → List EventArgs
events_of [] = []
events_of ((_, x) ∷ cs) = x ∷ events_of cs

-- Behind the entry at `p` the links lead through the entries `cs`, at rising addresses, to the last
-- entry, at `q`.
abbrev pub Chain : Heap → Ptr → Ptr → Cells → Type 0
Chain h p q [] = (p ≡ q) × ((e : EventEntry) × (h p ≡ some e) × (e.next ≡ 0))
Chain h p q ((r, x) ∷ cs) =
    (p < r)
    × ((e : EventEntry) × (h p ≡ some e) × (e.next ≡ r))
    × ((e : EventEntry) × (h r ≡ some e) × (payload e ≡ x))
    × Chain h r q cs

-- The list of a request that started at the heap `start`: the entries `cs`, and nothing else written.
pub record IsQueue (start : Heap) (s : SocketState) (last : Ptr) (cs : Cells) : Type 0 where
  pub head_pos : 0 < s.events
  pub chain : Chain s.heap s.events last cs
  pub last_lt : last < s.fresh
  pub cell : Cell
  pub cell_eq : s.last_event ≡ some cell
  pub cell_holds : deref s cell ≡ some last
  pub outside : (a : Ptr) → ((a == s.events) || has a cs) ≡ false → s.heap a ≡ start a
  pub inside : (a : Ptr) → ((a == s.events) || has a cs) ≡ true → start a ≡ none
  pub unused : (a : Ptr) → s.fresh ≤ a → start a ≡ none

module _ (h : Heap) where
  pub Chain-le : (p q : Ptr) (cs : Cells) → Chain h p q cs → p ≤ q
  Chain-le p q [] c = omega arith
  Chain-le p q ((r, x) ∷ cs) c = omega (arith, Chain-le r q cs c.3)

  pub Chain-last :
      (p q : Ptr) (cs : Cells) → Chain h p q cs → (e : EventEntry) × (h q ≡ some e) × (e.next ≡ 0)
  Chain-last p q [] (here, (e, at, end)) = (e, rw here at at, end)
  Chain-last p q ((r, x) ∷ cs) c = Chain-last r q cs c.3

  Chain-has-last : (p q : Ptr) (cs : Cells) → Chain h p q cs → ((q == p) || has q cs) ≡ true
  Chain-has-last p q [] c = ground arith
  Chain-has-last p q ((r, x) ∷ cs) c = ground (arith, Chain-has-last r q cs c.3)

  pub has_bounds : (a p q : Ptr) (cs : Cells) → Chain h p q cs → has a cs ≡ true → (p < a) × (a ≤ q)
  has_bounds a p q [] c i = cc
  has_bounds a p q ((r, x) ∷ cs) c i = ground (arith, Chain-le r q cs c.3, has_bounds a r q cs c.3)

  -- Writing a new last entry behind the old one extends the chain.
  Chain-snoc :
      (p q r : Ptr) (cs : Cells) (e entry : EventEntry) (x : EventArgs)
      → Chain h p q cs
      → h q ≡ some e
      → q < r
      → entry.next ≡ 0
      → payload entry ≡ x
      → Chain
          (write (write h q (some (record e { next = r }))) r (some entry))
          p
          r
          (cs ++ (r, x) ∷ [])
  Chain-snoc p q r [] e entry x (here, c) at lt end is = (
    omega arith,
    (record e { next = r }, ground arith, refl),
    (entry, ground arith, is),
    (refl, (entry, ground arith, end)),
  )
  Chain-snoc p q r ((r', x') ∷ cs) e entry x (lt', (e0, at0, n0), (e1, at1, is1), c) at lt end is =
      let le : r' ≤ q = Chain-le r' q cs c in
      (
        lt',
        (e0, ground arith, n0),
        elim (Bool-cases (r' == q)) [
          | inl same ↦ (record e { next = r }, ground arith, ground arith)
          | inr apart ↦ (e1, ground arith, is1)
        ],
        Chain-snoc r' q r cs e entry x c at lt end is,
      )

has-append : (a : Ptr) (cs ds : Cells) → has a (cs ++ ds) ≡ (has a cs || has a ds)
has-append a [] ds = refl
has-append a ((r, x) ∷ cs) ds = ground (arith, has-append a cs ds)

-- What `process_event` records of an event.
abbrev pub recorded : (store_stacktrace : Bool) → EventArgs → EventArgs
recorded store_stacktrace args = record args {
  trace = if store_stacktrace then args.trace else none;
}

pub rinit-IsQueue :
    (s : SocketState)
    → 0 < s.fresh
    → ((a : Ptr) → s.fresh ≤ a → s.heap a ≡ none)
    → IsQueue s.heap (rinit s) s.fresh []
unfolding rinit
rinit-IsQueue s pos unused = record {
  head_pos = pos;
  chain = (refl, (dummy, ground arith, refl));
  last_lt = omega arith;
  cell = events_cell;
  cell_eq = refl;
  cell_holds = refl;
  outside = λ a out. ground arith;
  inside = λ a i. ground (arith, unused a);
  unused = λ a le. unused a (omega arith);
}

module _ {start : Heap} {s : SocketState} {last : Ptr} {cs : Cells} (q : IsQueue start s last cs)
    (e entry : EventEntry) (at : s.heap last ≡ some e) (end : entry.next ≡ 0) where
  has-snoc :
      (a : Ptr) (x : EventArgs) → has a (cs ++ (s.fresh, x) ∷ []) ≡ (has a cs || (a == s.fresh))
  has-snoc a x = ground (arith, has-append a cs ((s.fresh, x) ∷ []))

  link-IsQueue : IsQueue start (link last e entry s) s.fresh (cs ++ (s.fresh, payload entry) ∷ [])
  unfolding link
  link-IsQueue = record {
    head_pos = q.head_pos;
    chain =
        Chain-snoc s.heap s.events last s.fresh cs e entry (payload entry) q.chain at q.last_lt end
          refl;
    last_lt = omega arith;
    cell = next_cell last;
    cell_eq = refl;
    cell_holds = ground arith;
    outside = λ a out. ground (
      arith,
      has-snoc a (payload entry),
      Chain-has-last s.heap s.events last cs q.chain,
      q.outside a,
    );
    inside = λ a i. ground (arith, has-snoc a (payload entry), q.inside a, q.unused a);
    unused = λ a le. q.unused a (omega arith);
  }

-- An event is added behind the others, at an address of its own, and nothing else is written.
pub process_event-IsQueue :
    {start : Heap} {s : SocketState} {last : Ptr} {cs : Cells} (store_stacktrace : Bool)
    (args : EventArgs) (file msg : Bytes)
    → IsQueue start s last cs
    → args.error_filename ≡ some file
    → args.msg ≡ some msg
    → (t : SocketState) × (process_event store_stacktrace args s ≡ some t)
      × IsQueue start t s.fresh (cs ++ (s.fresh, recorded store_stacktrace args) ∷ [])
unfolding process_event
process_event-IsQueue {start} {s} {last} {cs} store_stacktrace args file msg q f m =
    let (e, at, end) = Chain-last s.heap s.events last cs q.chain in
    let entry : EventEntry = record {
      type = args.type;
      error_filename = some file;
      error_lineno = args.error_lineno;
      msg = some msg;
      trace = if store_stacktrace then args.trace else none;
      next = 0;
    } in
    let is : payload entry ≡ recorded store_stacktrace args = ground arith in
    (
      link last e entry s,
      rw (q.cell_eq, q.cell_holds, at, f, m) refl,
      rw is at (link-IsQueue q e entry at refl),
    )
