-- ===== src/Ai/Workflow/Types.antt =====
-- models/enums.py, and schemas/workflow.py `AIWorkflowState`: the keys of the state that the nodes after
-- the answer read and write. An error is kept with the name of its node and without its text.
use recentthink_ai_be.Common.{ℕ, String, Bool, false, Option, some, List, [], ◌∷◌, Dict, ◌||◌, ◌==◌}
use recentthink_ai_be.Ai.Json.{Json}

-- the modules that process an answer, the keys of `_get_processors`
pub data Processor : Type 0 where
  teacher : Processor
  coder : Processor
  code_explainer : Processor
  evaluator : Processor

abbrev pub module_number : Processor → ℕ
module_number teacher = 0
module_number coder = 1
module_number code_explainer = 2
module_number evaluator = 3

-- the value of the name
abbrev pub module_key : Processor → String
module_key teacher = "teacher"
module_key coder = "coder"
module_key code_explainer = "code_explainer"
module_key evaluator = "evaluator"

abbrev pub is_module : Processor → Processor → Bool
is_module a b = module_number a == module_number b

abbrev pub is_among : Processor → List Processor → Bool
is_among m [] = false
is_among m (n ∷ ns) = is_module n m || is_among m ns

pub data WorkflowStatus : Type 0 where
  pending : WorkflowStatus
  in_progress : WorkflowStatus
  completed : WorkflowStatus
  partial : WorkflowStatus
  failed : WorkflowStatus

pub data SessionStatus : Type 0 where
  session_pending : SessionStatus
  session_in_progress : SessionStatus
  session_completed : SessionStatus
  session_failed : SessionStatus
  session_manual_required : SessionStatus

pub data Problem : Type 0 where
  in_planner : Problem
  in_openrouter : Problem
  in_module : Processor → Problem
  in_persist : Problem

pub record ModuleResponse : Type 0 where
  pub module_name : Processor
  pub content : String
  pub structured : Option (Dict Json)

pub record WorkState : Type 0 where
  pub modules_to_run : List Processor
  pub planner_output : Dict Json
  pub llm_raw : Dict Json
  pub teacher_output : Option Json
  pub coder_output : Option Json
  pub code_explainer_output : Option Json
  pub evaluator_output : Option Json
  pub module_responses : List ModuleResponse
  pub errors : List Problem
  pub status : WorkflowStatus
  pub cancelled : Bool

-- `state.get(f"{key}_output")`
abbrev pub output_of : Processor → WorkState → Option Json
output_of teacher s = s.teacher_output
output_of coder s = s.coder_output
output_of code_explainer s = s.code_explainer_output
output_of evaluator s = s.evaluator_output

abbrev pub with_output : Processor → Json → WorkState → WorkState
with_output teacher v s = record s { teacher_output = some v }
with_output coder v s = record s { coder_output = some v }
with_output code_explainer v s = record s { code_explainer_output = some v }
with_output evaluator v s = record s { evaluator_output = some v }
