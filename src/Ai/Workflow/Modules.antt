-- ===== src/Ai/Workflow/Modules.antt =====
-- agents/shared/workflow/nodes.py `_run_module_node`, and the `process` of the modules: each formats its
-- part of the answer and stores it as a message. How it is formatted is a parameter, nothing if it raises.
use recentthink_ai_be.Common.{
  ℕ, String, Bool, true, false, Option, none, some, [], ◌∷◌, ◌++◌, Dict, lookup, insert,
  if◌then◌else◌,
}
use recentthink_ai_be.Ai.Json.{Json, object, fields, as_dict, dict_at, is_truthy}
use recentthink_ai_be.Ai.Sections.{or_else}
use recentthink_ai_be.Ai.Workflow.Types.{
  Processor, teacher, coder, code_explainer, evaluator, module_key, is_among, in_module, WorkState,
  output_of, with_output,
}
use recentthink_ai_be.Ai.Workflow.Messages.{Write, Messages, assistant, create_message}

pub record Formatted : Type 0 where
  pub content : String
  pub structured : Option (Dict Json)

-- `value or {}`
abbrev pub or_object : Option Json → Json
or_object o =
    if is_truthy o then elim o [ none ↦ object (fields []) | some v ↦ v ] else object (fields [])

-- a nested payload of the answer goes with the teacher's part
abbrev pub with_nested : String → Dict Json → Dict Json → Dict Json
with_nested key llm_raw payload = elim (dict_at (lookup key llm_raw)) [
  | none ↦ payload
  | some [] ↦ payload
  | some (x ∷ xs) ↦ insert key (object (fields (x ∷ xs))) payload
]

-- `payload if isinstance(payload, dict) else {"content": payload}`
abbrev pub as_payload : Json → Dict Json
as_payload v = elim (as_dict v) [ none ↦ ("content", v) ∷ [] | some d ↦ d ]

-- what the state has for a module, from its own output or from the answer
unfoldable pub own_payload : Processor → WorkState → Json
unfolding or_else is_truthy
own_payload m s = or_object (or_else (output_of m s) (lookup (module_key m) s.llm_raw))

-- the teacher's part, if it is a dict, with the nested payloads
abbrev pub teacher_payload : WorkState → Json → Json
teacher_payload s v = elim (as_dict v) [
  | none ↦ v
  | some d ↦
      object (fields (with_nested "dsa_pattern" s.llm_raw (with_nested "course" s.llm_raw d)))
]

unfoldable pub payload_for : Processor → WorkState → Json
unfolding own_payload is_truthy
payload_for teacher s = teacher_payload s (own_payload teacher s)
payload_for coder s = own_payload coder s
payload_for evaluator s = own_payload evaluator s
payload_for code_explainer s = object (
    fields (
      ("llm_raw", object (fields s.llm_raw))
      ∷ ("coder_output", or_object s.coder_output)
      ∷ ("evaluator_output", or_object s.evaluator_output)
      ∷ ("planner_output", object (fields s.planner_output))
      ∷ []))

-- `result.structured or payload`
abbrev pub output_from : Option (Dict Json) → Json → Json
output_from none payload = payload
output_from (some []) payload = payload
output_from (some (x ∷ xs)) payload = object (fields (x ∷ xs))

abbrev pub module_failed : Processor → WorkState → WorkState
module_failed m s = record s { errors = s.errors ++ in_module m ∷ [] }

abbrev pub module_done : Processor → Formatted → WorkState → WorkState
module_done m f s = with_output m (output_from f.structured (payload_for m s)) (record s {
  module_responses =
      s.module_responses
      ++ record { module_name = m; content = f.content; structured = f.structured } ∷ [];
})

module _ (formatted : Processor → Dict Json → Option Formatted) (commits : ℕ → Write) where
  abbrev pub after_message :
      Processor → Formatted → WorkState → Bool × Messages → WorkState × Messages
  after_message m f s (true, t) = (module_done m f s, t)
  after_message m f s (false, t) = (module_failed m s, t)

  -- `process`, and what the node makes of it
  unfoldable pub process : Processor → WorkState → Messages → WorkState × Messages
  unfolding payload_for create_message
  process m s t = elim (formatted m (as_payload (payload_for m s))) [
    | none ↦ (module_failed m s, t)
    | some f ↦ after_message m f s (create_message commits assistant t)
  ]

  unfoldable pub run_module : Processor → WorkState → Messages → WorkState × Messages
  unfolding process
  run_module m s t = if is_among m s.modules_to_run then process m s t else (s, t)
