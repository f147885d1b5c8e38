-- ===== src/Examples/Tasks.antt =====
-- Runs of the task registry with a store that keeps what it is given, and with one that fails.
use mathlib.Core.List.{Mem, mem-cons_self, mem-cons_of_mem}
use mama_ai.Prelude.{
  ℕ, ◌==◌, eq_iff, ◌≡◌, ◌≢◌, ◌⊎◌, refl, arith, true, false, none, some, List, [], ◌∷◌, length,
}
use mama_ai.Int.{pos}
use mama_ai.Dict
use mama_ai.Dict.{Dict}
use mama_ai.Dict.Laws.{Holds}
use mama_ai.Result.{foreign, value_error, ok, err, ◌>>=◌}
use mama_ai.Text.{strip, is_empty}
use mama_ai.Exec.{Exec}
use mama_ai.Exec.Ensures.{Ensures}
use mama_ai.Task.{
  TaskStatus, running, succeeded, pending, cancelled, TaskRequest, TaskResult, Meta, text, low,
  RiskLevel,
}
use mama_ai.Task.Record.{
  TaskRecord, is_terminal, transition, validate_owner_id, invalid_transition, enter,
}
use mama_ai.Task.Listing.{listing}
use mama_ai.Task.Listing.Order.{IsListing, listing-IsListing, Mem-listing}
use mama_ai.Task.Lifecycle.{◌⟶◌, transition-⟶, drop}
use mama_ai.Task.Row.{from_row, to_row, from_row-to_row, TaskRow}
use mama_ai.TaskRegistry.{
  TaskRegistry, new_registry, get, register, transition_task, complete, validate_task_id, persist,
  set_record,
}
use mama_ai.TaskRegistry.Effect.{Call, registers, transitions, completes, run}
use mama_ai.TaskRegistry.Invariant.{IsValid, IsValid-new, run-IsValid}
use mama_ai.TaskRegistry.History.{Follows, run-Follows, run_terminal}
use mama_ai.TaskRegistry.Rollback.{register_rollback, transition_task_rollback, complete_rollback}
use mama_ai.TaskRegistry.Lookup.{get-register, get-register_padded, register_twice}
use mama_ai.TaskRegistry.Progress.{Entered, transition_task-Entered}
use mama_ai.TaskRegistry.Recovery.{IsStopped, restore_stops}
use mama_ai.TaskRegistry.Restore.{restore}

abbrev save_kept : TaskRecord ℕ → Exec (List (TaskRecord ℕ)) (Unit {0})
save_kept r db = (ok tt, r ∷ db)

abbrev save_fails : TaskRecord ℕ → Exec (List (TaskRecord ℕ)) (Unit {0})
save_fails r db = (err (foreign 1), db)

abbrev list_none : ℕ → Exec (List (TaskRecord ℕ)) (List (TaskRow ℕ))
list_none n db = (ok [], db)

abbrev open_file : TaskRequest
open_file = record {
  command = "open the report";
  source = "voice";
  autonomy_level = pos 1;
  risk_level = low;
  task_id = "t1";
  metadata = ("owner_id", text "mia") ∷ [];
  created_at = 10;
}

abbrev padded : TaskRequest
padded = record open_file { task_id = " t1 " }

abbrev started : TaskRecord ℕ
started = record {
  task_id = "t1";
  command = "open the report";
  source = "voice";
  autonomy_level = pos 1;
  risk_level = low;
  owner_id = "mia";
  status = running;
  message = "";
  output = none;
  error = none;
  evidence = [];
  created_at = 10;
  updated_at = 12;
  started_at = some 12;
  finished_at = none;
}

abbrev ended : TaskRecord ℕ
ended = record started { status = succeeded; finished_at = some 15 }

abbrev opened : TaskResult ℕ
opened = record {
  task_id = "t1";
  status = succeeded;
  message = "opened";
  output = some 3;
  error = none;
  evidence = [];
  started_at = 12;
  finished_at = some 15;
}

abbrev stored : TaskRecord ℕ → TaskRegistry ℕ (List (TaskRecord ℕ))
stored r = record { records = (r.task_id, r) ∷ []; store = some []; persistence_enabled = true }

abbrev empty_store : TaskRegistry ℕ (List (TaskRecord ℕ))
empty_store = record { records = []; store = some []; persistence_enabled = true }

abbrev history : List (Call ℕ)
history =
    registers open_file
    ∷ transitions "t1" running none 12
    ∷ completes opened 15 16
    ∷ transitions "t1" cancelled (some "stop") 17
    ∷ []

get_started :
    (r : TaskRecord ℕ)
    → Dict.get "t1" (stored (record r { task_id = "t1" })).records
      ≡ some (record r { task_id = "t1" })
unfolding Dict.get
get_started r = refl

run-IsValid_example : IsValid (run save_kept new_registry history)
run-IsValid_example =
    run-IsValid save_kept new_registry history (IsValid-new ℕ (List (TaskRecord ℕ)))

run-Follows_example : Follows "t1" running (run save_kept (stored started) history).records
run-Follows_example =
    run-Follows save_kept (stored started) history "t1" started (get_started started)

run_terminal_example :
    (r : TaskRecord ℕ) × (Dict.get "t1" (run save_kept (stored ended) history).records ≡ some r)
    × (r.status ≡ succeeded)
run_terminal_example =
    run_terminal save_kept (stored ended) history "t1" ended (get_started ended) refl

register_fails : (register save_fails open_file empty_store).0 ≡ err (foreign 1)
unfolding register mama_ai.TaskRegistry.register_new Dict.get mama_ai.Task.Record.from_request
    mama_ai.Task.Record.owner_from_request is_empty strip mama_ai.TaskRegistry.write_or
    mama_ai.TaskRegistry.persist
register_fails = refl

register_rollback_example : (register save_fails open_file empty_store).1.records ≡ []
register_rollback_example =
    register_rollback save_fails open_file empty_store {e = foreign 1} register_fails

transition_task_fails :
    (transition_task save_fails "t1" cancelled none 20 (stored started)).0 ≡ err (foreign 1)
unfolding transition_task mama_ai.TaskRegistry.validate_task_id is_empty strip
    mama_ai.TaskRegistry.update Dict.get transition mama_ai.Task.Record.allowed
    mama_ai.TaskRegistry.write_or mama_ai.TaskRegistry.persist
transition_task_fails = refl

transition_task_rollback_example :
    (transition_task save_fails "t1" cancelled none 20 (stored started)).1.records
    ≡ ("t1", started) ∷ []
transition_task_rollback_example =
    transition_task_rollback save_fails "t1" cancelled none 20 (stored started) {e = foreign 1}
      transition_task_fails

complete_fails : (complete save_fails opened 15 16 (stored started)).0 ≡ err (foreign 1)
unfolding complete mama_ai.TaskRegistry.update Dict.get mama_ai.Task.Record.apply_result transition
    mama_ai.Task.Record.allowed mama_ai.TaskRegistry.write_or mama_ai.TaskRegistry.persist
complete_fails = refl

complete_rollback_example :
    (complete save_fails opened 15 16 (stored started)).1.records ≡ ("t1", started) ∷ []
complete_rollback_example =
    complete_rollback save_fails opened 15 16 (stored started) {e = foreign 1} complete_fails

register_stored :
    (register save_kept open_file empty_store).0
    ≡ ok (record started { status = pending; updated_at = 10; started_at = none })
unfolding register mama_ai.TaskRegistry.register_new Dict.get mama_ai.Task.Record.from_request
    mama_ai.Task.Record.owner_from_request is_empty strip mama_ai.TaskRegistry.write_or
    mama_ai.TaskRegistry.persist
register_stored = refl

get-register_example :
    (get "t1" (register save_kept open_file empty_store).1).0
    ≡ ok (some (record started { status = pending; updated_at = 10; started_at = none }))
unfolding strip is_empty
get-register_example = get-register save_kept open_file empty_store register_stored refl refl

white_space_stored :
    (register save_kept padded empty_store).0
    ≡ ok (record started { task_id = " t1 "; status = pending; updated_at = 10; started_at = none })
unfolding register mama_ai.TaskRegistry.register_new Dict.get mama_ai.Task.Record.from_request
    mama_ai.Task.Record.owner_from_request is_empty strip mama_ai.TaskRegistry.write_or
    mama_ai.TaskRegistry.persist
white_space_stored = refl

padded_unequal : (strip " t1 " == " t1 ") ≡ false
unfolding strip
padded_unequal = refl

padded_differs : strip " t1 " ≢ " t1 "
padded_differs h = absurd (ground (arith, eq_iff (strip " t1 ") " t1 ", padded_unequal))

get-register_padded_example : (get " t1 " (register save_kept padded empty_store).1).0 ≡ ok none
unfolding strip is_empty Dict.get
get-register_padded_example =
    get-register_padded save_kept padded empty_store white_space_stored padded_differs refl refl

register_twice_example :
    let s = (register save_kept open_file empty_store).1 in
    register save_kept open_file s
    ≡ (err (value_error ("Task is already registered: " ∷ "t1" ∷ [])), s)
register_twice_example =
    register_twice save_kept open_file open_file empty_store register_stored refl

list_started : ℕ → Exec (List (TaskRecord ℕ)) (List (TaskRow ℕ))
list_started n db = (ok (to_row started ∷ []), db)

restore_stops_example :
    Ensures
      (λ n s'. Holds IsStopped s'.records × (n ≡ length s'.records))
      (λ s'. s'.records ≡ [])
      (restore save_kept list_started true (λ i. 30) empty_store)
restore_stops_example = restore_stops save_kept list_started (λ i. 30) empty_store

transition-⟶_example :
    (record started { status = succeeded; updated_at = 20; finished_at = some 20 } ≡ started)
    ⊎ ((running ⟶ succeeded) × (succeeded ≡ succeeded))
unfolding transition mama_ai.Task.Record.allowed
transition-⟶_example =
    transition-⟶ succeeded none none 20 {r = started}
      {r' = record started { status = succeeded; updated_at = 20; finished_at = some 20 }} refl

listing-IsListing_example :
    IsListing
      (some running)
      (some "mia")
      (listing (some running) (some "mia") (some 1) (ended ∷ started ∷ []))
listing-IsListing_example =
    listing-IsListing (some running) (some "mia") (some 1) (ended ∷ started ∷ [])

Mem-listing_example : Mem started (listing (some running) (some "mia") none (ended ∷ started ∷ []))
Mem-listing_example =
    Mem-listing (some running) (some "mia") (ended ∷ started ∷ []) started
      (mem-cons_of_mem ended mem-cons_self) refl refl

from_row-to_row_example : from_row (to_row ended) ≡ ok ended
unfolding validate_owner_id strip is_empty
from_row-to_row_example = from_row-to_row ended refl

started_id : validate_task_id " t1" ≡ ok "t1"
unfolding validate_task_id is_empty strip
started_id = refl

transition_task-Entered_example :
    (r : TaskRecord ℕ) × Entered cancelled (some "stop") 20 started r
    × ((transition_task save_fails " t1" cancelled (some "stop") 20 (stored started)).0
        ≡ ((persist save_fails r (set_record "t1" r (stored started))).0 >>= λ u. ok r))
transition_task-Entered_example =
    transition_task-Entered save_fails " t1" cancelled (some "stop") 20 (stored started) {id = "t1"}
      {v = started} started_id (get_started started) (drop refl)
