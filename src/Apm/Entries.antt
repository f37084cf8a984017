-- ===== src/Apm/Entries.antt =====
-- The linked list of drivers of apm.c: PHP_GINIT_FUNCTION makes it, the loops over the drivers follow
-- it, and PHP_GSHUTDOWN_FUNCTION frees it. `malloc` gives the addresses from `fresh` on; 0 is NULL.
use php_apm.Common.{
  ℕ, zero, suc, ◌+◌, ◌≤◌, ◌<◌, false, ◌==◌, ltb, leb, ◌&&◌, if◌then◌else◌, Option, none, some, List,
  [], ◌∷◌, ◌++◌, length, length-append, ◌≡◌, refl, ap, ◌∙◌, arith, append_assoc, append-nil, subst,
  Bool-cases, inl, inr,
}
use php_apm.Globals.Owners.{Owner}
use php_apm.Apm.Drivers.{Build, built}
use php_apm.Socket.{◌>>=◌}

-- apm_driver_entry; the first entry has no functions: `none`.
pub record DriverEntry : Type 0 where
  pub driver : Option Owner
  pub next : ℕ

abbrev pub DriverHeap : Type 0
DriverHeap = ℕ → Option DriverEntry

pub record DriverList : Type 0 where
  -- `apm_globals->drivers`
  pub drivers : ℕ
  -- the entry whose `next` the local variable `next` points to
  pub last : ℕ
  pub heap : DriverHeap
  pub fresh : ℕ

abbrev pub store_entry : ℕ → DriverEntry → DriverHeap → DriverHeap
store_entry p e h a = if a == p then some e else h a

abbrev pub release : ℕ → DriverHeap → DriverHeap
release p h a = if a == p then none else h a

-- `*next = apm_driver_<name>_create(); next = &(*next)->next`
unfoldable pub link_driver : Owner → DriverList → Option DriverList
link_driver o l = do
  e ← l.heap l.last
  some (record l {
    last = l.fresh;
    heap =
        store_entry l.last (record e { next = l.fresh })
          (store_entry l.fresh (record { driver = some o; next = 0 }) l.heap);
    fresh = l.fresh + 1;
  })

unfoldable pub link_drivers : List Owner → DriverList → Option DriverList
unfolding link_driver
link_drivers [] l = some l
link_drivers (o ∷ os) l = do l' ← link_driver o l; link_drivers os l'

abbrev pub first_entry : (fresh : ℕ) → DriverHeap → DriverList
first_entry fresh h = record {
  drivers = fresh;
  last = fresh;
  heap = store_entry fresh (record { driver = none; next = 0 }) h;
  fresh = fresh + 1;
}

-- PHP_GINIT_FUNCTION
unfoldable pub ginit : Build → (fresh : ℕ) → DriverHeap → Option DriverList
unfolding link_drivers
ginit b fresh h = link_drivers (built b) (first_entry fresh h)

-- `while ((driver_entry = driver_entry->next) != NULL)`: the drivers that the loop comes to
unfoldable pub loop_from : ℕ → DriverHeap → ℕ → Option (List Owner)
loop_from zero h p = none
loop_from (suc f) h p = do
  e ← h p
  if e.next == 0
      then some []
      else do n ← h e.next; o ← n.driver; rest ← loop_from f h e.next; some (o ∷ rest)

-- `recursive_free_driver`
unfoldable pub recursive_free_driver : ℕ → DriverHeap → ℕ → Option DriverHeap
recursive_free_driver zero h p = none
recursive_free_driver (suc f) h p = do
  e ← h p
  h' ← (if e.next == 0 then some h else recursive_free_driver f h e.next)
  some (release p h')

-- The entries of a list that stand one behind the other, from the address `p` on.
abbrev pub Entries : DriverHeap → ℕ → List Owner → Type 0
Entries h p [] = (d : Option Owner) × (h p ≡ some (record { driver = d; next = 0 }))
Entries h p (o ∷ os) =
    (d : Option Owner) × (h p ≡ some (record { driver = d; next = p + 1 }))
    × ((n : ℕ) × (h (p + 1) ≡ some (record { driver = some o; next = n })))
    × Entries h (p + 1) os

loop_from-Entries :
    (f : ℕ) (h : DriverHeap) (p : ℕ) (os : List Owner)
    → Entries h p os
    → length os < f
    → loop_from f h p ≡ some os
unfolding loop_from
loop_from-Entries zero h p os e fuel = absurd (omega arith)
loop_from-Entries (suc f) h p [] (d, at) fuel = rw at refl
loop_from-Entries (suc f) h p (o ∷ os) (d, at, (n, at1), rest) fuel =
    let more = loop_from-Entries f h (p + 1) os rest (omega arith) in ground (arith, at, at1, more)

free-Entries :
    (f : ℕ) (h : DriverHeap) (p : ℕ) (os : List Owner)
    → Entries h p os
    → length os < f
    → (h' : DriverHeap) × (recursive_free_driver f h p ≡ some h')
      × ((a : ℕ) → h' a ≡ (if leb p a && ltb a (p + length os + 1) then none else h a))
unfolding recursive_free_driver
free-Entries zero h p os e fuel = absurd (omega arith)
free-Entries (suc f) h p [] (d, at) fuel = (release p h, rw at refl, λ a. ground arith)
free-Entries (suc f) h p (o ∷ os) (d, at, (n, at1), rest) fuel =
    let (h', freed, is) = free-Entries f h (p + 1) os rest (omega arith) in
    (release p h', ground (arith, at, freed), λ a. ground (arith, is a))

last_entry :
    (h : DriverHeap) (p : ℕ) (os : List Owner)
    → Entries h p os
    → (d : Option Owner) × (h (p + length os) ≡ some (record { driver = d; next = 0 }))
last_entry h p [] (d, at) = (d, ap h (omega arith) ∙ at)
last_entry h p (o ∷ os) (d, at, at1, rest) =
    let (d', at') = last_entry h (p + 1) os rest in (d', ap h (omega arith) ∙ at')

-- A new entry behind the last one, which stands at `q`.
Entries-snoc :
    (h h' : DriverHeap) (o : Owner) (d : Option Owner) (q p : ℕ) (os : List Owner)
    → q ≡ p + length os
    → h q ≡ some (record { driver = d; next = 0 })
    → ((a : ℕ)
        → h' a ≡ (
            if a == q
            then some (record { driver = d; next = q + 1 })
            else if a == q + 1
            then some (record { driver = some o; next = 0 })
            else h a))
    → Entries h p os
    → Entries h' p (os ++ o ∷ [])
Entries-snoc h h' o d q p [] last at is (d0, at0) =
    (d, ground (arith, is p), (0, ground (arith, is (p + 1))), (some o, ground (arith, is (p + 1))))
Entries-snoc h h' o d q p (o' ∷ os) last at is (d0, at0, (n, at1), rest) = (
  d0,
  ground (arith, is p),
  elim (Bool-cases (p + 1 == q)) [
    | inl end ↦ (q + 1, met d q at at1 (ground arith) (is (p + 1)))
    | inr inner ↦ (n, ground (arith, is (p + 1)))
  ],
  Entries-snoc h h' o d q (p + 1) os (omega arith) at is rest,
)
  where
    met :
        (d : Option Owner) (q : ℕ)
        → h q ≡ some (record { driver = d; next = 0 })
        → h (p + 1) ≡ some (record { driver = some o'; next = n })
        → p + 1 ≡ q
        → h' (p + 1) ≡ (
            if (p + 1) == q
            then some (record { driver = d; next = q + 1 })
            else if (p + 1) == q + 1
            then some (record { driver = some o; next = 0 })
            else h (p + 1))
        → h' (p + 1) ≡ some (record { driver = some o'; next = q + 1 })
    met d q at at1 same is1 = ground arith

-- The list as it is built, over the heap `start`, with the first entry at `first`.
record IsList (start : DriverHeap) (first : ℕ) (os : List Owner) (l : DriverList) : Type 0 where
  drivers : l.drivers ≡ first
  last : l.last ≡ first + length os
  fresh : l.fresh ≡ l.last + 1
  entries : Entries l.heap first os
  outside : (a : ℕ) → (leb first a && leb a l.last) ≡ false → l.heap a ≡ start a

link_driver-IsList :
    (start : DriverHeap) (first : ℕ) (os : List Owner) (o : Owner) (l : DriverList)
    → IsList start first os l
    → (l' : DriverList) × (link_driver o l ≡ some l') × IsList start first (os ++ o ∷ []) l'
unfolding link_driver
link_driver-IsList start first os o l is =
    let (d, at) = last_entry l.heap first os is.entries in
    let at_last : l.heap l.last ≡ some (record { driver = d; next = 0 }) = ap l.heap is.last ∙ at in
    let l' : DriverList = record l {
      last = l.fresh;
      heap =
          store_entry l.last (record { driver = d; next = l.fresh })
            (store_entry l.fresh (record { driver = some o; next = 0 }) l.heap);
      fresh = l.fresh + 1;
    } in
    (
      l',
      rw at_last refl,
      record {
        drivers = is.drivers;
        last = omega (arith, is.last, is.fresh, length-append os (o ∷ []));
        fresh = refl;
        entries =
            Entries-snoc l.heap l'.heap o d l.last first os is.last at_last
              (λ a. ground (arith, is.fresh)) is.entries;
        outside = λ a out. ground (arith, is.outside a, is.fresh);
      },
    )

link_drivers-IsList :
    (start : DriverHeap) (first : ℕ) (done os : List Owner) (l : DriverList)
    → IsList start first done l
    → (l' : DriverList) × (link_drivers os l ≡ some l') × IsList start first (done ++ os) l'
unfolding link_drivers
link_drivers-IsList start first done [] l is = (l, refl, rw (append-nil done) is)
link_drivers-IsList start first done (o ∷ os) l is =
    let (l1, linked, is1) = link_driver-IsList start first done o l is in
    let (l2, linked2, is2) = link_drivers-IsList start first (done ++ o ∷ []) os l1 is1 in
    (
      l2,
      rw linked linked2,
      subst (λ xs. IsList start first xs l2) (append_assoc done (o ∷ []) os) is2,
    )

length-built : (b : Build) → length (built b) < 5
unfolding built
length-built b = ground arith

-- PHP_GINIT_FUNCTION links exactly the drivers of the build: it returns, the loops over the list come to
-- each of them once and in their order, and PHP_GSHUTDOWN_FUNCTION frees every entry once and leaves the
-- heap as it was, where `malloc` gives unused addresses other than NULL.
pub ginit_refines :
    (b : Build) (fresh : ℕ) (h : DriverHeap)
    → 0 < fresh
    → ((a : ℕ) → fresh ≤ a → h a ≡ none)
    → (l : DriverList) × (h' : DriverHeap) × (ginit b fresh h ≡ some l)
      × (loop_from 5 l.heap l.drivers ≡ some (built b))
      × (recursive_free_driver 5 l.heap l.drivers ≡ some h')
      × ((a : ℕ) → h' a ≡ h a)
unfolding ginit
ginit_refines b fresh h pos unused =
    let start : IsList h fresh [] (first_entry fresh h) = record {
      drivers = refl;
      last = omega arith;
      fresh = refl;
      entries = (none, ground arith);
      outside = λ a out. ground arith;
    } in
    let (l, made, is) = link_drivers-IsList h fresh [] (built b) (first_entry fresh h) start in
    let short = length-built b in
    let (h', freed, gone) = free-Entries 5 l.heap fresh (built b) is.entries short in
    (
      l,
      h',
      made,
      ap (loop_from 5 l.heap) is.drivers
          ∙ loop_from-Entries 5 l.heap fresh (built b) is.entries short,
      ap (recursive_free_driver 5 l.heap) is.drivers ∙ freed,
      λ a. ground (arith, gone a, is.outside a, is.last, unused a),
    )
