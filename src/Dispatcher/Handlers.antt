-- ===== src/Dispatcher/Handlers.antt =====
-- The handlers of the file descriptors (Dispatcher of libhylafax/Dispatcher.c++): the three tables, the
-- three descriptor sets that select is given, and the number of descriptors. A descriptor is the unsigned
-- value which the code compares with _max_fds, so a negative one is too high. A handler is named by its
-- address. The system's descriptor sets have `fd_setsize` bits (FD_SETSIZE), which need not be _max_fds: that
-- is sysconf(_SC_OPEN_MAX). `none` is an abort, or a write outside of a descriptor set.
use hyla_fax.Base.{
  ℕ, zero, suc, ◌+◌, ◌-◌, ◌≤◌, ◌<◌, Bool, true, false, not, ◌&&◌, ltb, leb, ◌==◌, if◌then◌else◌,
  Option, none, some, ◌≡◌, refl, arith, inl, inr, Bool-cases,
}
use hyla_fax.Base.Checks.{write_at}

pub data DispatcherMask : Type 0 where
  read_mask : DispatcherMask
  write_mask : DispatcherMask
  except_mask : DispatcherMask

pub record Dispatcher : Type 0 where
  pub max_fds : ℕ
  pub nfds : ℕ
  pub rtable : ℕ → Option ℕ
  pub wtable : ℕ → Option ℕ
  pub etable : ℕ → Option ℕ
  pub rmask : ℕ → Bool
  pub wmask : ℕ → Bool
  pub emask : ℕ → Bool

-- The constructor.
abbrev pub new_dispatcher : (max_fds : ℕ) → Dispatcher
new_dispatcher max_fds = record {
  max_fds = max_fds;
  nfds = 0;
  rtable = λ fd. none;
  wtable = λ fd. none;
  etable = λ fd. none;
  rmask = λ fd. false;
  wmask = λ fd. false;
  emask = λ fd. false;
}

-- `handler(fd, mask)`.
abbrev pub table_of : Dispatcher → DispatcherMask → ℕ → Option ℕ
table_of d read_mask = d.rtable
table_of d write_mask = d.wtable
table_of d except_mask = d.etable

abbrev pub handler : Dispatcher → (fd : ℕ) → DispatcherMask → Option (Option ℕ)
handler d fd mask = if leb d.max_fds fd then none else some (table_of d mask fd)

-- The assignments of attach.
abbrev pub with_handler : Dispatcher → (fd : ℕ) → DispatcherMask → (h : ℕ) → Dispatcher
with_handler d fd read_mask h = record d {
  rmask = write_at d.rmask fd true;
  rtable = write_at d.rtable fd (some h);
}
with_handler d fd write_mask h = record d {
  wmask = write_at d.wmask fd true;
  wtable = write_at d.wtable fd (some h);
}
with_handler d fd except_mask h = record d {
  emask = write_at d.emask fd true;
  etable = write_at d.etable fd (some h);
}

-- `if (_nfds < fd+1) _nfds = fd+1`.
abbrev pub raise_nfds : Dispatcher → (fd : ℕ) → Dispatcher
raise_nfds d fd = record d { nfds = if ltb d.nfds (fd + 1) then fd + 1 else d.nfds }

abbrev pub is_null : Option ℕ → Bool
is_null none = true
is_null (some h) = false

-- No handler waits for the descriptor.
abbrev pub is_idle : Dispatcher → (fd : ℕ) → Bool
is_idle d fd = is_null (d.rtable fd) && is_null (d.wtable fd) && is_null (d.etable fd)

-- The loop of detach, which lowers _nfds.
unfoldable pub shrink : Dispatcher → (nfds : ℕ) → ℕ
shrink d zero = 0
shrink d (suc n) = let lower = shrink d n in if is_idle d n then lower else suc n

-- The assignments of detach.
abbrev pub without_handler : Dispatcher → (fd : ℕ) → Dispatcher
without_handler d fd = record d {
  rmask = write_at d.rmask fd false;
  rtable = write_at d.rtable fd none;
  wmask = write_at d.wmask fd false;
  wtable = write_at d.wtable fd none;
  emask = write_at d.emask fd false;
  etable = write_at d.etable fd none;
}

-- `if (_nfds == fd+1)` with the loop.
abbrev pub lower_nfds : Dispatcher → (fd : ℕ) → Dispatcher
lower_nfds d fd = record d { nfds = if d.nfds == fd + 1 then shrink d d.nfds else d.nfds }

-- What the loop leaves: no handler from its result on, and one just below it.
shrink_lem :
    (d : Dispatcher) (n : ℕ)
    → ((fd : ℕ) → n ≤ fd → is_idle d fd ≡ true)
    → (shrink d n ≤ n)
      × ((fd : ℕ) → shrink d n ≤ fd → is_idle d fd ≡ true)
      × (0 < shrink d n → is_idle d (shrink d n - 1) ≡ false)
unfolding shrink
shrink_lem d zero above = (omega arith, above, λ pos. absurd (omega arith))
shrink_lem d (suc n) above = elim (Bool-cases (is_idle d n)) [
  | inl idle ↦
      let lower = shrink_lem d n λ fd le. elim (Bool-cases (fd == n)) [
        | inl same ↦ let e : fd ≡ n = ground (arith, same) in rw e idle
        | inr other ↦ above fd (ground (arith, other))
      ] in
      simp idle (omega (arith, lower.0), lower.1, lower.2)
  | inr busy ↦
      simp busy (omega arith, above, λ pos. let e : suc n - 1 ≡ n = omega arith in rw e busy)
]

module _ (fd_setsize : ℕ) where
  -- FD_SET and the table of attach. FD_SET comes first: it writes outside of the set if the descriptor is
  -- not one of the set's bits.
  abbrev entered : Dispatcher → (fd : ℕ) → DispatcherMask → (h : ℕ) → Option Dispatcher
  entered d fd mask h = if ltb fd fd_setsize then some (with_handler d fd mask h) else none

  unfoldable pub attach : Dispatcher → (fd : ℕ) → DispatcherMask → (h : ℕ) → Option Dispatcher
  attach d fd mask h = elim (entered d fd mask h) [ none ↦ none | some e ↦ some (raise_nfds e fd) ]

  unfoldable pub link : Dispatcher → (fd : ℕ) → DispatcherMask → (h : ℕ) → Option Dispatcher
  link d fd mask h = if leb d.max_fds fd then none else attach d fd mask h

  -- FD_CLR and the tables of detach. The first FD_CLR writes outside of its set if the descriptor is not
  -- one of the set's bits.
  abbrev cleared : Dispatcher → (fd : ℕ) → Option Dispatcher
  cleared d fd = if ltb fd fd_setsize then some (without_handler d fd) else none

  unfoldable pub detach : Dispatcher → (fd : ℕ) → Option Dispatcher
  detach d fd = elim (cleared d fd) [ none ↦ none | some e ↦ some (lower_nfds e fd) ]

  unfoldable pub unlink : Dispatcher → (fd : ℕ) → Option Dispatcher
  unlink d fd = if leb d.max_fds fd then none else detach d fd

  -- What holds of the tables between two calls: _nfds is one more than the highest descriptor that has a
  -- handler, it passes neither the size of the tables nor that of the sets, and the sets hold the descriptors
  -- with a handler.
  pub record IsDispatcher (d : Dispatcher) : Type 0 where
    pub bounded : d.nfds ≤ d.max_fds
    pub in_sets : d.nfds ≤ fd_setsize
    pub above : (fd : ℕ) → d.nfds ≤ fd → is_idle d fd ≡ true
    pub highest : 0 < d.nfds → is_idle d (d.nfds - 1) ≡ false
    pub reads : (fd : ℕ) → d.rmask fd ≡ not (is_null (d.rtable fd))
    pub writes : (fd : ℕ) → d.wmask fd ≡ not (is_null (d.wtable fd))
    pub excepts : (fd : ℕ) → d.emask fd ≡ not (is_null (d.etable fd))

  new_dispatcher-IsDispatcher : (max_fds : ℕ) → IsDispatcher (new_dispatcher max_fds)
  new_dispatcher-IsDispatcher max_fds = record {
    bounded = omega arith;
    in_sets = omega arith;
    above = λ fd h. refl;
    highest = λ h. absurd (omega arith);
    reads = λ fd. refl;
    writes = λ fd. refl;
    excepts = λ fd. refl;
  }

  with_handler-IsDispatcher :
      (d : Dispatcher) (fd : ℕ) (mask : DispatcherMask) (h : ℕ)
      → fd < d.max_fds
      → fd < fd_setsize
      → IsDispatcher d
      → IsDispatcher (raise_nfds (with_handler d fd mask h) fd)
  with_handler-IsDispatcher d fd read_mask h lt fits v = record {
    bounded = ground (arith, v.bounded);
    in_sets = ground (arith, v.in_sets);
    above = λ x. ground (arith, v.above x);
    highest = λ pos. ground (arith, v.highest);
    reads = λ x. ground (arith, v.reads x);
    writes = v.writes;
    excepts = v.excepts;
  }
  with_handler-IsDispatcher d fd write_mask h lt fits v = record {
    bounded = ground (arith, v.bounded);
    in_sets = ground (arith, v.in_sets);
    above = λ x. ground (arith, v.above x);
    highest = λ pos. ground (arith, v.highest);
    reads = v.reads;
    writes = λ x. ground (arith, v.writes x);
    excepts = v.excepts;
  }
  with_handler-IsDispatcher d fd except_mask h lt fits v = record {
    bounded = ground (arith, v.bounded);
    in_sets = ground (arith, v.in_sets);
    above = λ x. ground (arith, v.above x);
    highest = λ pos. ground (arith, v.highest);
    reads = v.reads;
    writes = v.writes;
    excepts = λ x. ground (arith, v.excepts x);
  }

  without_handler-IsDispatcher :
      (d : Dispatcher) (fd : ℕ)
      → IsDispatcher d
      → IsDispatcher (lower_nfds (without_handler d fd) fd)
  without_handler-IsDispatcher d fd v =
      let e = without_handler d fd in
      let above : (x : ℕ) → d.nfds ≤ x → is_idle e x ≡ true = λ x le. ground (arith, v.above x) in
      let low = shrink_lem e d.nfds above in
      record {
        bounded = ground (arith, v.bounded, low.0);
        in_sets = ground (arith, v.in_sets, low.0);
        above = λ x le. elim (Bool-cases (d.nfds == fd + 1)) [
          | inl top ↦ low.1 x (rw top at le)
          | inr inside ↦ above x (rw inside at le)
        ];
        highest = elim (Bool-cases (d.nfds == fd + 1)) [
          | inl top ↦ λ pos. let r = low.2 (rw top at pos) in simp top r
          | inr inside ↦ λ pos. ground (arith, inside, v.highest)
        ];
        reads = λ x. ground (arith, v.reads x);
        writes = λ x. ground (arith, v.writes x);
        excepts = λ x. ground (arith, v.excepts x);
      }

  -- What a call of link or of unlink gives: `none` for a descriptor that is too high for the tables or for
  -- the sets, and for no other.
  link_lem :
      (d : Dispatcher) (fd : ℕ) (mask : DispatcherMask) (h : ℕ)
      → link d fd mask h ≡ (
          if ltb fd d.max_fds && ltb fd fd_setsize
          then some (raise_nfds (with_handler d fd mask h) fd)
          else none)
  unfolding link attach
  link_lem d fd mask h = ground arith

  unlink_lem :
      (d : Dispatcher) (fd : ℕ)
      → unlink d fd ≡ (
          if ltb fd d.max_fds && ltb fd fd_setsize
          then some (lower_nfds (without_handler d fd) fd)
          else none)
  unfolding unlink detach
  unlink_lem d fd = ground arith

  -- A call of link or of unlink that neither aborts nor writes outside of a descriptor set.
  pub data Step (d e : Dispatcher) : Type 0 where
    links : (fd : ℕ) (mask : DispatcherMask) (h : ℕ) → link d fd mask h ≡ some e → Step d e
    unlinks : (fd : ℕ) → unlink d fd ≡ some e → Step d e

  pub data Reach (d : Dispatcher) : Dispatcher → Type 0 where
    here : Reach d d
    next : {e f : Dispatcher} → Reach d e → Step e f → Reach d f

  Step-IsDispatcher : {d e : Dispatcher} → Step d e → IsDispatcher d → IsDispatcher e
  Step-IsDispatcher {d} {e} (links fd mask h done) v =
      elim (Bool-cases (ltb fd d.max_fds && ltb fd fd_setsize)) [
        | inr outside ↦ absurd (cc (link_lem d fd mask h, outside, done))
        | inl inside ↦
            let result : raise_nfds (with_handler d fd mask h) fd ≡ e =
              cc (link_lem d fd mask h, inside, done) in
            rw (← result) (
              with_handler-IsDispatcher d fd mask h (ground (arith, inside))
                (ground (arith, inside)) v)
      ]
  Step-IsDispatcher {d} {e} (unlinks fd done) v =
      elim (Bool-cases (ltb fd d.max_fds && ltb fd fd_setsize)) [
        | inr outside ↦ absurd (cc (unlink_lem d fd, outside, done))
        | inl inside ↦
            let result : lower_nfds (without_handler d fd) fd ≡ e =
              cc (unlink_lem d fd, inside, done) in
            rw (← result) (without_handler-IsDispatcher d fd v)
      ]

  -- After any calls of link and unlink that neither abort nor write outside of a descriptor set, _nfds is one
  -- more than the highest descriptor that has a handler, or 0 without one, and at most _max_fds and
  -- FD_SETSIZE, and the three descriptor sets hold exactly the descriptors that have a handler of that kind.
  pub Reach-IsDispatcher :
      {max_fds : ℕ} {d : Dispatcher} → Reach (new_dispatcher max_fds) d → IsDispatcher d
  Reach-IsDispatcher {max_fds} here = new_dispatcher-IsDispatcher max_fds
  Reach-IsDispatcher (next r s) = Step-IsDispatcher s (Reach-IsDispatcher r)
