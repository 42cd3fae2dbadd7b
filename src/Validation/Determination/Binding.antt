-- ===== src/Validation/Determination/Binding.antt =====
-- app/backend/ot_demo/modules/validation/determination.py: `bind_context` and `prepare_context`, which
-- freeze the sources of an attempt as the context of its determination.
pub mod Members
pub mod Produced
pub mod Bound
use ot_engineering_demonstra.Base.{
  String, ◌==◌, ℕ, nat_eq, Bool, true, false, not, ◌&&◌, Option, none, some, List, [], ◌∷◌, is_some,
  Failure, determination_error, validation_error, Result, ok, err, or_raise, if◌then◌else◌,
}
use ot_engineering_demonstra.Domain.Assurance.{
  active_attempt, active_execution, frozen, is_scenario, same_context_kind,
}
use ot_engineering_demonstra.Validation.{
  ValidationTargetSelection, ValidationAttempt, ValidationExecution, DeterminationContext,
  DeterminationContextMember, context_valid, same_option,
}
use ot_engineering_demonstra.Validation.Catalogue.{get_method}
use ot_engineering_demonstra.Validation.Store.{
  DeterminationStore, get_attempt, get_target, get_execution,
}
use ot_engineering_demonstra.Validation.Store.Write.{
  insert_produced_source, insert_frozen_context, bind_attempt_procedure_execution,
  capture_repeat_source_baseline,
}
use ot_engineering_demonstra.Validation.Store.Action.{
  Action, ◌>>=◌, ◌>>◌, pure, raise, lift, read, look, write, require, commit, for_each,
}
use ot_engineering_demonstra.Validation.Determination.{
  DeterminationService, SourceAuthorityContext, ProducedRoleAuthority,
}
use Members.{BoundTarget, bound_target, context_members, same_id}
use Produced.{produced_source}

-- The arguments of a call; the identifiers are what `uuid4` gives in it.
pub record BindingRequest : Type 0 where
  pub validation_attempt_id : ℕ
  pub frozen_at : ℕ
  pub scenario_run_id : Option ℕ
  pub validation_execution_id : Option ℕ
  pub repeat_of_execution_id : Option ℕ
  pub new_execution_id : ℕ
  pub new_context_id : ℕ
  pub new_source_ids : String → ℕ

abbrev pub execution_matches : BindingRequest → BoundTarget → ValidationExecution → Bool
execution_matches r b execution =
    same_id execution.scenario_run_id r.scenario_run_id
    && execution.test_id == b.target.test_id
    && same_option execution.case_id b.target.case_id
    && same_id execution.validation_attempt_id (some r.validation_attempt_id)

-- A case is identified by all three of its fields, or by none.
abbrev pub case_complete : ValidationTargetSelection → Bool
case_complete target =
    if is_some target.case_id
    then is_some target.case_definition_version && is_some target.case_definition_sha256
    else not (is_some target.case_definition_version) && not (is_some target.case_definition_sha256)

abbrev pub new_execution :
    DeterminationService → BindingRequest → BoundTarget → String → String → ValidationExecution
new_execution service r b configuration version = record {
  validation_execution_id = r.new_execution_id;
  test_id = b.target.test_id;
  test_definition_version = b.loaded.definition.version;
  test_definition_sha256 = b.loaded.definition_sha256;
  catalogue_version = b.loaded.catalogue_version;
  catalogue_sha256 = b.loaded.catalogue_sha256;
  case_id = b.target.case_id;
  case_definition_version = b.target.case_definition_version;
  case_definition_sha256 = b.target.case_definition_sha256;
  context_kind = b.method.context_kind;
  scenario_run_id = none;
  scenario_mode = none;
  evidence_class = b.target.evidence_class;
  configuration_id = configuration;
  configuration_version = version;
  application_build_id = service.application_build_id;
  status = active_execution;
  started_at = some r.frozen_at;
  finalised_scenario_time = none;
  finalised_at = none;
  observed_criterion_finding_ids = [];
  evidence_snapshot_ids = [];
  verdict = none;
  repeat_of_execution_id = r.repeat_of_execution_id;
  validation_attempt_id = some b.attempt.validation_attempt_id;
  target_selection_id = some b.target.target_selection_id;
  executed_result_id = none;
}

abbrev pub activated : BindingRequest → ValidationAttempt → ValidationAttempt
activated r attempt = record attempt {
  status = active_attempt;
  validation_execution_id = some r.new_execution_id;
  updated_at = r.frozen_at;
}

-- The baseline of a repeat is stored before its execution.
abbrev pub baseline_first : BindingRequest → Option ℕ → Action (Unit {0})
baseline_first r none = pure tt
baseline_first r (some source) = write (capture_repeat_source_baseline r.new_execution_id source)

abbrev pub start_procedure : DeterminationService → BindingRequest → BoundTarget → Action ℕ
start_procedure service r b = do
  configuration ← lift (or_raise b.target.configuration_id validation_error)
  version ← lift (or_raise b.target.configuration_version validation_error)
  require (case_complete b.target) validation_error
  baseline_first r r.repeat_of_execution_id
  write (
      bind_attempt_procedure_execution (activated r b.attempt)
        (new_execution service r b configuration version))
  pure r.new_execution_id

abbrev pub scenario_execution_of : BindingRequest → BoundTarget → Option ℕ → Action ℕ
scenario_execution_of r b none = raise determination_error
scenario_execution_of r b (some i) = do
  require (is_some r.scenario_run_id) determination_error
  execution ← read (get_execution i)
  require (execution_matches r b execution) determination_error
  pure i

abbrev pub procedure_execution_of :
    DeterminationService → BindingRequest → BoundTarget → Option ℕ → Action ℕ
procedure_execution_of service r b none = do
  require (not (is_some r.scenario_run_id)) determination_error
  start_procedure service r b
procedure_execution_of service r b (some i) = do
  require (not (is_some r.scenario_run_id)) determination_error
  execution ← read (get_execution i)
  require
      (same_context_kind execution.context_kind b.method.context_kind
        && execution_matches r b execution)
      determination_error
  pure i

-- The execution of the context: that of the scenario, or a procedure's, which is started where the
-- call names none.
unfoldable pub execution_for : DeterminationService → BindingRequest → BoundTarget → Action ℕ
execution_for service r b =
    if is_scenario b.method.context_kind
    then scenario_execution_of r b r.validation_execution_id
    else procedure_execution_of service r b r.validation_execution_id

abbrev pub frozen_context :
    DeterminationService
    → BindingRequest
    → BoundTarget
    → ℕ
    → List DeterminationContextMember
    → DeterminationContext
frozen_context service r b execution members = record {
  determination_context_id = r.new_context_id;
  validation_attempt_id = r.validation_attempt_id;
  test_id = b.target.test_id;
  case_id = b.target.case_id;
  evidence_class = b.target.evidence_class;
  catalogue_version = b.loaded.catalogue_version;
  catalogue_sha256 = b.loaded.catalogue_sha256;
  method_id = b.method.method_id;
  method_version = b.method.version;
  method_sha256 = b.method.method_sha256;
  context_kind = b.method.context_kind;
  status = frozen;
  application_build_id = service.application_build_id;
  configuration_id = b.target.configuration_id;
  configuration_version = b.target.configuration_version;
  scenario_run_id = r.scenario_run_id;
  validation_execution_id = some execution;
  members = members;
  created_at = b.target.created_at;
  frozen_at = some r.frozen_at;
}

unfoldable pub bind_context : DeterminationService → BindingRequest → Action DeterminationContext
bind_context service r = do
  b ← read (bound_target service r.validation_attempt_id)
  execution ← execution_for service r b
  members ← read (context_members service b r.scenario_run_id (some execution))
  let context = frozen_context service r b execution members
  require (context_valid context) validation_error
  write (insert_frozen_context context)
  pure context

abbrev pub persist_produced_source :
    DeterminationService → BindingRequest → ProducedRoleAuthority → Action (Unit {0})
persist_produced_source service r authority = do
  stored ←
      commit
        (produced_source service r.validation_attempt_id authority r.frozen_at
          (r.new_source_ids authority.source_role))
        insert_produced_source
  pure tt

-- The sources are stored one by one, each for good, and then bound.
unfoldable pub prepare_context : DeterminationService → BindingRequest → Action DeterminationContext
prepare_context service r = do
  attempt ← read (get_attempt r.validation_attempt_id)
  target ← read (get_target attempt.target_selection_id)
  method ← lift (get_method service.catalogue target.test_id target.case_id)
  produced ← look (
      service.produce (record {
        attempt = attempt;
        target = target;
        method = method;
        scenario_run_id = r.scenario_run_id;
        validation_execution_id = r.validation_execution_id;
      }))
  authorities ← lift (or_raise produced determination_error)
  stored ← for_each (persist_produced_source service r) authorities
  bind_context service r
