-- ===== src/Dispatcher/Tests.antt =====
-- Runs of the model of libhylafax/Dispatcher.c++ on concrete queues.
use hyla_fax.Base.{ℕ, ◌+◌, ◌≤◌, true, false, List, [], ◌∷◌, ◌++◌, none, some, ◌≡◌, refl, arith}
use hyla_fax.Base.Ordered.{IsSorted, insert_while, count}
use hyla_fax.Dispatcher.Timers.{Timeval, Timer, NotAfter}
use hyla_fax.Dispatcher.Timers
use hyla_fax.Dispatcher.Expire.{
  Action, start_timer, expire, Expired, expire-Expired, expire-due_timers, fire, due_timers,
  waiting_timers, is_due,
}
use hyla_fax.Dispatcher.Children.{
  Child, ChildQueue, notify, notify_from, calls, running, new_child, notify-calls, set_status,
  mark_status,
}
use hyla_fax.Dispatcher.Children
use hyla_fax.Dispatcher.Handlers
use hyla_fax.Dispatcher.Handlers.{
  read_mask, write_mask, new_dispatcher, with_handler, raise_nfds, without_handler, lower_nfds,
  attach, detach, shrink, link, unlink, links, unlinks, Reach, here, next, IsDispatcher,
  Reach-IsDispatcher,
}

abbrev at : ℕ → ℕ → Timeval
at s u = record { tv_sec = s; tv_usec = u }

abbrev timers : List Timer
timers =
    record { timer_value = at 10 0; handler = 1 }
    ∷ record { timer_value = at 10 500; handler = 2 }
    ∷ record { timer_value = at 20 0; handler = 3 }
    ∷ []

timers-sorted : IsSorted NotAfter timers
timers-sorted = ((refl, (refl, tt)), ((refl, tt), (tt, tt)))

-- A timer of the time of the first goes behind it, and a timer of the time of a later one before it.
insert_first_run :
    Timers.insert timers (at 10 0) 4
    ≡ record { timer_value = at 10 0; handler = 1 }
      ∷ record { timer_value = at 10 0; handler = 4 }
      ∷ record { timer_value = at 10 500; handler = 2 }
      ∷ record { timer_value = at 20 0; handler = 3 }
      ∷ []
unfolding Timers.insert insert_while
insert_first_run = refl

insert_later_run :
    Timers.insert timers (at 10 500) 4
    ≡ record { timer_value = at 10 0; handler = 1 }
      ∷ record { timer_value = at 10 500; handler = 4 }
      ∷ record { timer_value = at 10 500; handler = 2 }
      ∷ record { timer_value = at 20 0; handler = 3 }
      ∷ []
unfolding Timers.insert insert_while
insert_later_run = refl

-- The first handler starts its timer again five seconds later, the others note that they were called.
abbrev again : List ℕ → Timer → Timeval → List ℕ × List Action
again w timer cur =
    (w ++ timer.handler ∷ [], start_timer (at (cur.tv_sec + 5) cur.tv_usec) timer.handler ∷ [])

abbrev note : List ℕ → Timer → Timeval → List ℕ × List Action
note w timer cur = (w ++ timer.handler ∷ [], [])

two_due : count (is_due (at 12 0)) timers ≤ 2
unfolding count
two_due = omega arith

expire-Expired_example : Expired (at 12 0) (expire again 2 (at 12 0) [] timers)
expire-Expired_example =
    expire-Expired again (at 12 0) 2 [] timers (λ v timer. (refl, tt)) timers-sorted two_due

expire-due_timers_example :
    expire note 2 (at 12 0) [] timers
    ≡ some (
      fire note (at 12 0) [] (due_timers note (at 12 0) timers),
      waiting_timers note (at 12 0) timers,
    )
expire-due_timers_example =
    expire-due_timers note (at 12 0) 2 [] timers (λ v timer. refl) timers-sorted two_due

-- The child 7 has ended, and its handler starts another.
abbrev children : ChildQueue
children = record {
  children =
      new_child (5, 1) ∷ record { pid = 7; status = some 0; handler = 2 } ∷ new_child (9, 3) ∷ [];
  ready = true;
}

abbrev starts : List ℕ → Child → List ℕ × List (ℕ × ℕ)
starts w c = (w ++ c.pid ∷ [], (11, 4) ∷ [])

notify-calls_example :
    notify starts 4 [] children
    ≡ some (
      (7 ∷ []),
      record {
        children = new_child (5, 1) ∷ new_child (9, 3) ∷ new_child (11, 4) ∷ [];
        ready = false;
      },
    )
notify-calls_example = notify-calls starts 4 [] children (omega arith)

set_status_run :
    set_status (Children.insert (record { children = []; ready = false }) 7 2) 7 0
    ≡ record { children = record { pid = 7; status = some 0; handler = 2 } ∷ []; ready = true }
unfolding set_status mark_status Children.insert
set_status_run = refl

-- A handler for reading 5 and for writing 2, then 5 is closed: the highest descriptor is 2.
abbrev closed_5 : Handlers.Dispatcher
closed_5 =
    lower_nfds
      (without_handler
        (raise_nfds
          (with_handler (raise_nfds (with_handler (new_dispatcher 8) 5 read_mask 40) 5) 2 write_mask
            41)
          2)
        5)
      5

closed_5_run : closed_5.nfds ≡ 3
unfolding shrink
closed_5_run = refl

closed_5-Reach : Reach 1024 (new_dispatcher 8) closed_5
unfolding link unlink attach detach
closed_5-Reach =
    next (next (next here (links 5 read_mask 40 refl)) (links 2 write_mask 41 refl))
      (unlinks 5 refl)

Reach-IsDispatcher_example : IsDispatcher 1024 closed_5
Reach-IsDispatcher_example = Reach-IsDispatcher 1024 closed_5-Reach

-- A process with 4096 descriptors and sets of 1024 bits: link passes its test against _max_fds for the
-- descriptor 1024, and FD_SET writes outside of the set.
outside_run : link 1024 (new_dispatcher 4096) 1024 read_mask 40 ≡ none
unfolding link attach
outside_run = refl
