-- ===== src/Examples/Engines.antt =====
-- Runs of the engine: a denied command, and a command whose approval was already used.
use mama_ai.Prelude.{◌≡◌, refl, some, List, [], ◌∷◌, none}
use mama_ai.Int.{pos}
use mama_ai.Dict
use mama_ai.Result.{ok}
use mama_ai.Exec.{Exec}
use mama_ai.Task.{text, TaskRequest, low, medium}
use mama_ai.Task.Record.{TaskRecord}
use mama_ai.TaskRegistry
use mama_ai.Approval.{ApprovalRecord, validate_text}
use mama_ai.Approval.Registry.{ApprovalRegistry, consume, get}
use mama_ai.Approval.History.{IsValid, here, next, gets, consumes, Step-IsValid}
use mama_ai.Risk.{RiskAssessment}
use mama_ai.Risk.Rules.{allow, require_approval, file_deletion}
use mama_ai.Risk.Policy.{assess}
use mama_ai.Engine.{null, Payload, World, Env, Fresh}
use mama_ai.Engine.Execute.{prepare, Ready, Args, command, to_request, execute}
use mama_ai.Engine.Runs.{execute_runs}
use mama_ai.Engine.Steps.{start_task}
use mama_ai.Engine.Guard.{Outcome, execute_guarded}
use mama_ai.Engine.Once.{execute_denied, execute_spent}
use mama_ai.Examples.Approvals.{save_kept, digest, stored, spent, granted, granted-IsValid}
use mama_ai.Examples.Risks.{finds, theft}

abbrev pub save_task : TaskRecord Payload → Exec (List (TaskRecord Payload)) (Unit {0})
save_task r db = (ok tt, r ∷ db)

abbrev pub desk : Env (List (TaskRecord Payload)) (List ApprovalRecord)
desk = record {
  save_task = save_task;
  save_approval = save_kept;
  hash_token = digest;
  search = finds;
  executor = λ c. ok null;
  executor_name = "Desk";
  str_exc = λ e. "error";
  str_output = λ o. "done";
}

abbrev pub fresh : Fresh
fresh = record { now = λ i. 50; assessment_id = "x"; approval_id = "a2"; task_id = "t1" }

abbrev steal : Args
steal = record {
  task = command "steal passwords";
  source = "voice";
  autonomy_level = pos 1;
  owner_id = some "mia";
  approval_id = some "a1";
  approval_token = some "secret";
}

abbrev steal_request : TaskRequest
steal_request = record {
  command = "steal passwords";
  source = "voice";
  autonomy_level = pos 1;
  risk_level = low;
  task_id = "t1";
  metadata = [];
  created_at = 50;
}

abbrev theft_now : RiskAssessment
theft_now = record theft { created_at = 50 }

abbrev pub idle : World (List (TaskRecord Payload)) (List ApprovalRecord)
idle = record {
  tasks = TaskRegistry.new_registry;
  approvals = stored spent;
  events = [];
  executed = [];
}

execute_guarded_example : Outcome desk steal fresh idle (execute desk steal fresh idle).1
execute_guarded_example = execute_guarded desk steal fresh idle

steal_asked :
    to_request steal.task steal.source steal.autonomy_level fresh.task_id (fresh.now 24)
    ≡ ok steal_request
unfolding to_request mama_ai.Task.new_request mama_ai.Text.is_empty mama_ai.Text.strip
steal_asked = refl

steal_assessed : assess finds steal_request.command fresh.assessment_id (fresh.now 8) ≡ ok theft_now
unfolding assess mama_ai.Text.is_empty mama_ai.Risk.Policy.normalize_command
    mama_ai.Text.Words.join_words mama_ai.Text.Words.words mama_ai.Text.strip
    mama_ai.Risk.Policy.assess_match mama_ai.Risk.Policy.first_match mama_ai.Risk.Rules.build_rules
    mama_ai.Risk.Policy.matches
steal_assessed = refl

execute_denied_example : (execute desk steal fresh idle).1.executed ≡ []
execute_denied_example =
    execute_denied desk steal fresh idle steal_request theft_now steal_asked steal_assessed refl

-- The approval "a1" was used for this command before.
abbrev delete_again : Args
delete_again = record steal { task = command "delete the report" }

abbrev delete_request : TaskRequest
delete_request = record steal_request { command = "delete the report" }

abbrev deletion : RiskAssessment
deletion = record {
  command = "delete the report";
  risk_level = file_deletion.risk_level;
  decision = require_approval;
  category = file_deletion.category;
  reasons = file_deletion.reason ∷ [];
  matched_rules = file_deletion.pattern ∷ [];
  assessment_id = "x";
  created_at = 50;
}

abbrev before : ApprovalRegistry (List ApprovalRecord)
before = (consume save_kept digest "a1" "t1" "mia" "secret" 30 40 (stored granted)).1

abbrev used : World (List (TaskRecord Payload)) (List ApprovalRecord)
used = record {
  tasks = TaskRegistry.new_registry;
  approvals = (get save_kept "a1" 45 before).1;
  events = [];
  executed = "delete the report" ∷ [];
}

delete_asked :
    to_request delete_again.task delete_again.source delete_again.autonomy_level fresh.task_id
      (fresh.now 24)
    ≡ ok delete_request
unfolding to_request mama_ai.Task.new_request mama_ai.Text.is_empty mama_ai.Text.strip
delete_asked = refl

delete_assessed :
    assess finds delete_request.command fresh.assessment_id (fresh.now 8) ≡ ok deletion
unfolding assess mama_ai.Text.is_empty mama_ai.Risk.Policy.normalize_command
    mama_ai.Text.Words.join_words mama_ai.Text.Words.words mama_ai.Text.strip
    mama_ai.Risk.Policy.assess_match mama_ai.Risk.Policy.first_match mama_ai.Risk.Rules.build_rules
    mama_ai.Risk.Policy.matches
delete_assessed = refl

before-IsValid : IsValid before
before-IsValid =
    Step-IsValid save_kept digest (consumes "a1" "t1" "mia" "secret" 30 40) granted-IsValid

before_spent : Dict.get "a1" before.records ≡ some spent
unfolding Dict.get consume validate_text mama_ai.Text.is_empty mama_ai.Text.strip
    mama_ai.Approval.Registry.open_record mama_ai.Approval.Registry.require_locked
    mama_ai.Approval.Registry.refresh mama_ai.Approval.is_due mama_ai.Approval.Registry.verify_owner
    mama_ai.Approval.Registry.verify_grant mama_ai.Approval.Registry.write_or
    mama_ai.Approval.Registry.persist Dict.put
before_spent = refl

given_id : validate_text "a1" "Approval ID" ≡ ok "a1"
unfolding validate_text mama_ai.Text.is_empty mama_ai.Text.strip
given_id = refl

execute_spent_example : (execute desk delete_again fresh used).1.executed ≡ "delete the report" ∷ []
execute_spent_example =
    execute_spent desk delete_again fresh used delete_request deletion before "a1" "a1" spent
      delete_asked delete_assessed refl refl given_id before-IsValid before_spent refl
      (next here (gets "a1" 45))

-- A command that no rule matches.
abbrev open_report : Args
open_report = record steal {
  task = command "open the report";
  approval_id = none;
  approval_token = none;
}

abbrev open_request : TaskRequest
open_request = record steal_request { command = "open the report" }

abbrev harmless : RiskAssessment
harmless = record {
  command = "open the report";
  risk_level = low;
  decision = allow;
  category = "normal_operation";
  reasons = "No sensitive or destructive operation was detected." ∷ [];
  matched_rules = [];
  assessment_id = "x";
  created_at = 50;
}

abbrev open_ready : Ready
open_ready = record {
  the_request = record open_request { metadata = ("owner_id", text "mia") ∷ [] };
  assessment = harmless;
  owner = "mia";
}

open_asked :
    to_request open_report.task open_report.source open_report.autonomy_level fresh.task_id
      (fresh.now 24)
    ≡ ok open_request
unfolding to_request mama_ai.Task.new_request mama_ai.Text.is_empty mama_ai.Text.strip
open_asked = refl

open_prepared : (prepare desk open_request open_report.owner_id fresh idle).0 ≡ ok open_ready
unfolding prepare mama_ai.Engine.Steps.resolve_owner_id mama_ai.Engine.Steps.check_owner
    mama_ai.Text.is_empty mama_ai.Text.strip assess mama_ai.Risk.Policy.normalize_command
    mama_ai.Text.Words.join_words mama_ai.Text.Words.words mama_ai.Engine.Steps.ensure_registered
    TaskRegistry.get TaskRegistry.validate_task_id mama_ai.Engine.Execute.stamp
    mama_ai.Engine.Steps.ensure_found Dict.get TaskRegistry.register TaskRegistry.register_new
    Dict.pop Dict.put mama_ai.Risk.Policy.assess_match mama_ai.Risk.Policy.first_match
    mama_ai.Risk.Policy.matches mama_ai.Risk.Rules.build_rules mama_ai.Task.Record.from_request
    mama_ai.Task.Record.owner_from_request mama_ai.Task.Record.validate_owner_id
    TaskRegistry.persist TaskRegistry.save_to TaskRegistry.write_or mama_ai.Text.Words.keep_word
    mama_ai.Text.Words.split_first mama_ai.Text.is_space mama_ai.Text.lstrip mama_ai.Text.rstrip
open_prepared = refl

open_started :
    (start_task desk open_ready.the_request
      (fresh.now 19)
      (prepare desk open_request open_report.owner_id fresh idle).1).0
    ≡ ok (some 50)
unfolding start_task TaskRegistry.get TaskRegistry.validate_task_id mama_ai.Text.is_empty
    mama_ai.Text.strip mama_ai.Engine.Steps.start_found Dict.get prepare
    mama_ai.Engine.Steps.resolve_owner_id mama_ai.Engine.Steps.check_owner assess
    mama_ai.Risk.Policy.normalize_command mama_ai.Text.Words.join_words mama_ai.Text.Words.words
    mama_ai.Engine.Steps.ensure_registered mama_ai.Engine.Execute.stamp
    mama_ai.Engine.Steps.ensure_found Dict.pop Dict.put mama_ai.Risk.Policy.assess_match
    mama_ai.Risk.Policy.first_match mama_ai.Risk.Policy.matches mama_ai.Risk.Rules.build_rules
    mama_ai.Task.Record.allowed mama_ai.Task.Record.enter mama_ai.Task.Record.from_request
    mama_ai.Task.Record.owner_from_request mama_ai.Task.Record.transition
    mama_ai.Task.Record.validate_owner_id mama_ai.Task.status_value TaskRegistry.mark_running
    TaskRegistry.persist TaskRegistry.register TaskRegistry.register_new TaskRegistry.save_to
    TaskRegistry.transition_task TaskRegistry.update TaskRegistry.write_or
    mama_ai.Text.Words.keep_word mama_ai.Text.Words.split_first mama_ai.Text.is_space
    mama_ai.Text.lstrip mama_ai.Text.rstrip
open_started = refl

execute_runs_example : (execute desk open_report fresh idle).1.executed ≡ "open the report" ∷ []
execute_runs_example =
    execute_runs desk open_report fresh idle {r = open_request} {t = open_ready} {started = some 50}
      open_asked open_prepared refl refl open_started
