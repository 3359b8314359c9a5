-- ===== src/Handlers/Schedule/Entries.antt =====
-- Scheduled jobs that are paused and resumed.
use tork.Prelude.{
  ℕ, ◌<◌, String, Bool, true, not, none, some, List, [], ◌∷◌, ◌++◌, Dict, insert, ◌≡◌, All, arith,
  eq_iff, ◌==◌,
}
use tork.Job.{ScheduledJobState, ScheduledJob}
use tork.Exec.{ok}
use tork.Datastore.Users.{filter_rows}
use tork.Handlers.Schedule
use tork.Handlers.Schedule.{
  Entry, Schedules, lookup, remove, has_entry, handle_active, handle_paused,
}

-- Identifiers are drawn in order, so that the next one is new.
abbrev pub IsFresh : Schedules → Type 0
IsFresh st = All (λ e. e.id < st.next_id) st.entries

lookup-insert : (k : String) (n : ℕ) (m : Dict ℕ) → lookup k (insert k n m) ≡ some n
unfolding lookup insert
lookup-insert k n [] = ground (arith, eq_iff k k)
lookup-insert k n ((j, old) ∷ m) = ground (arith, eq_iff j k, eq_iff k k, lookup-insert k n m)

remove-insert : (k : String) (n : ℕ) (m : Dict ℕ) → lookup k m ≡ none → remove k (insert k n m) ≡ m
unfolding lookup insert remove
remove-insert k n [] absent = ground (arith, eq_iff k k)
remove-insert k n ((j, old) ∷ m) absent =
    ground (arith, eq_iff j k, eq_iff k k, remove-insert k n m)

has_entry-append : (e : Entry) (es : List Entry) → has_entry e.id (es ++ e ∷ []) ≡ true
unfolding has_entry
has_entry-append e [] = ground arith
has_entry-append e (x ∷ es) = ground (arith, has_entry-append e es)

remove_last :
    (e : Entry) (es : List Entry)
    → All (λ x. x.id < e.id) es
    → filter_rows (λ x. not (x.id == e.id)) (es ++ e ∷ []) ≡ es
unfolding filter_rows
remove_last e [] older = ground arith
remove_last e (x ∷ es) (lt, older) = ground (arith, remove_last e es older)

-- A scheduled job without an entry that becomes active has one entry more, and when it is paused the
-- entries and the map are as they were: it does not run any more, and no other scheduled job is
-- touched.
pub handle-paused :
    (accepts : String → Bool) (s p : ScheduledJob) (st : Schedules)
    → IsFresh st
    → accepts s.cron ≡ true
    → s.state ≡ ScheduledJobState.active
    → p.id ≡ s.id
    → p.state ≡ ScheduledJobState.paused
    → lookup s.id st.m ≡ none
    → let st' = (Schedule.handle accepts s st).1 in
      ((Schedule.handle accepts s st).0 ≡ ok tt)
      × (st'.entries ≡ st.entries ++ record { id = st.next_id; job = s } ∷ [])
      × ((Schedule.handle accepts p st').0 ≡ ok tt)
      × ((Schedule.handle accepts p st').1.entries ≡ st.entries)
      × ((Schedule.handle accepts p st').1.m ≡ st.m)
unfolding Schedule.handle handle_active handle_paused
handle-paused accepts s p st fresh accepted active same paused absent =
    let e : Entry = record { id = st.next_id; job = s } in
    ground (
      arith,
      accepted,
      active,
      same,
      paused,
      lookup-insert s.id st.next_id st.m,
      remove-insert s.id st.next_id st.m absent,
      has_entry-append e st.entries,
      remove_last e st.entries fresh,
    )
