-- ===== src/Domain/Composite.antt =====
-- app/backend/ot_demo/domain/enums.py: the controlled values of suspensions and composites, and the
-- equality of the values that their records compare.
use ot_engineering_demonstra.Base.{String, Bool, true, false, ℕ, nat_eq, ◌≡◌, refl}
use ot_engineering_demonstra.Domain.{ScenarioMode, formal, exploration}
use ot_engineering_demonstra.Domain.Assurance.{
  ValidationVerdict, pass_verdict, fail_verdict, not_run, blocked_test,
  ValidationSuspensionCondition, vsc_001, vsc_002, vsc_003, vsc_004, vsc_005, RequiredInputRole,
  ValidationAttemptStatus, suspended, executed, not_started, active_attempt, incomplete,
}

pub data SuspensionRecordStatus : Type 0 where
  draft_suspension finalised_suspension : SuspensionRecordStatus

pub data CompositeConstituentSourceKind : Type 0 where
  execution_result suspension_result : CompositeConstituentSourceKind

pub data CompositeCompletenessStatus : Type 0 where
  incomplete_composite complete_composite : CompositeCompletenessStatus

pub data CompositeResultStatus : Type 0 where
  draft_composite finalised_composite : CompositeResultStatus

abbrev pub is_finalised_suspension : SuspensionRecordStatus → Bool
is_finalised_suspension draft_suspension = false
is_finalised_suspension finalised_suspension = true

abbrev pub is_execution_result : CompositeConstituentSourceKind → Bool
is_execution_result execution_result = true
is_execution_result suspension_result = false

abbrev pub is_complete_composite : CompositeCompletenessStatus → Bool
is_complete_composite incomplete_composite = false
is_complete_composite complete_composite = true

abbrev pub is_finalised_composite : CompositeResultStatus → Bool
is_finalised_composite draft_composite = false
is_finalised_composite finalised_composite = true

abbrev pub is_suspended : ValidationAttemptStatus → Bool
is_suspended suspended = true
is_suspended not_started = false
is_suspended active_attempt = false
is_suspended incomplete = false
is_suspended executed = false

abbrev pub is_executed : ValidationAttemptStatus → Bool
is_executed executed = true
is_executed not_started = false
is_executed active_attempt = false
is_executed incomplete = false
is_executed suspended = false

abbrev pub same_verdict : ValidationVerdict → ValidationVerdict → Bool
same_verdict pass_verdict pass_verdict = true
same_verdict fail_verdict fail_verdict = true
same_verdict not_run not_run = true
same_verdict blocked_test blocked_test = true
same_verdict a b = false

abbrev condition_index : ValidationSuspensionCondition → ℕ
condition_index vsc_001 = 1
condition_index vsc_002 = 2
condition_index vsc_003 = 3
condition_index vsc_004 = 4
condition_index vsc_005 = 5

abbrev pub same_condition : ValidationSuspensionCondition → ValidationSuspensionCondition → Bool
same_condition a b = nat_eq (condition_index a) (condition_index b)

abbrev role_index : RequiredInputRole → ℕ
role_index RequiredInputRole.application_build = 0
role_index RequiredInputRole.configuration = 1
role_index RequiredInputRole.catalogue = 2
role_index RequiredInputRole.test_definition = 3
role_index RequiredInputRole.case_definition = 4
role_index RequiredInputRole.controlled_fixture = 5

abbrev pub same_role : RequiredInputRole → RequiredInputRole → Bool
same_role a b = nat_eq (role_index a) (role_index b)

-- `role.value`
abbrev pub role_value : RequiredInputRole → String
role_value RequiredInputRole.application_build = "APPLICATION_BUILD"
role_value RequiredInputRole.configuration = "CONFIGURATION"
role_value RequiredInputRole.catalogue = "CATALOGUE"
role_value RequiredInputRole.test_definition = "TEST_DEFINITION"
role_value RequiredInputRole.case_definition = "CASE_DEFINITION"
role_value RequiredInputRole.controlled_fixture = "CONTROLLED_FIXTURE"

abbrev pub same_mode : ScenarioMode → ScenarioMode → Bool
same_mode formal formal = true
same_mode formal exploration = false
same_mode exploration formal = false
same_mode exploration exploration = true

pub same_verdict-eq : (a b : ValidationVerdict) → same_verdict a b ≡ true → a ≡ b
same_verdict-eq pass_verdict pass_verdict h = refl
same_verdict-eq fail_verdict fail_verdict h = refl
same_verdict-eq not_run not_run h = refl
same_verdict-eq blocked_test blocked_test h = refl
same_verdict-eq pass_verdict fail_verdict h = cc
same_verdict-eq pass_verdict not_run h = cc
same_verdict-eq pass_verdict blocked_test h = cc
same_verdict-eq fail_verdict pass_verdict h = cc
same_verdict-eq fail_verdict not_run h = cc
same_verdict-eq fail_verdict blocked_test h = cc
same_verdict-eq not_run pass_verdict h = cc
same_verdict-eq not_run fail_verdict h = cc
same_verdict-eq not_run blocked_test h = cc
same_verdict-eq blocked_test pass_verdict h = cc
same_verdict-eq blocked_test fail_verdict h = cc
same_verdict-eq blocked_test not_run h = cc
