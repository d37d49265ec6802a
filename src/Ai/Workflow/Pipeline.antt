-- ===== src/Ai/Workflow/Pipeline.antt =====
-- agents/shared/workflow/nodes.py `persist_node`, `run_post_llm_pipeline` and the rollback of a stream, and
-- which modules `planner_node` chooses.
use recentthink_ai_be.Common.{
  ℕ, suc, String, Bool, true, false, Option, none, some, List, [], ◌∷◌, ◌++◌, Dict, str_eq, select,
  map, not, ◌&&◌, ◌||◌, if◌then◌else◌,
}
use recentthink_ai_be.Ai.Json.{Json, is_empty}
use recentthink_ai_be.Ai.Sections.{is_requested, top_keys}
use recentthink_ai_be.Ai.Workflow.Types.{
  Processor, teacher, coder, code_explainer, evaluator, module_key, is_among, WorkflowStatus,
  completed, partial, failed, SessionStatus, session_completed, session_failed, in_persist,
  ModuleResponse, WorkState,
}
use recentthink_ai_be.Ai.Workflow.Messages.{
  Write, Messages, Message, is_assistant, is_in, delete_message, list_by_session,
}
use recentthink_ai_be.Ai.Workflow.Modules.{Formatted, run_module}

abbrev pub has_text : String → List String → Bool
has_text s [] = false
has_text s (t ∷ ts) = str_eq t s || has_text s ts

-- the modules of a plan that a request for sections runs
unfoldable pub modules_for : List Processor → Option (List String) → List Processor
modules_for planned requested = elim (is_requested requested) [
  | none ↦ planned
  | some sections ↦ elim (select (λ s. has_text s top_keys) sections) [
    | [] ↦ if is_among teacher planned then teacher ∷ [] else planned
    | s ∷ ss ↦ select (λ m. has_text (module_key m) (s ∷ ss)) planned
  ]
]

-- `_filter_modules_for_sections` of graph.py: the responses that a request for sections returns
unfoldable pub filter_modules_for_sections :
    List ModuleResponse → Option (List String) → List ModuleResponse
filter_modules_for_sections responses regenerated = elim (is_requested regenerated) [
  | none ↦ responses
  | some sections ↦ elim (select (λ s. has_text s top_keys) sections) [
    | [] ↦ select (λ r. str_eq (module_key r.module_name) "teacher") responses
    | s ∷ ss ↦ select (λ r. has_text (module_key r.module_name) (s ∷ ss)) responses
  ]
]

unfoldable pub final_status : WorkState → WorkflowStatus
final_status s = elim (s.status) [
  | failed ↦ failed
  | other ↦ if is_empty s.errors then completed else partial
]

-- the status that the session's row is given
unfoldable pub session_row_status : WorkState → SessionStatus
unfolding final_status
session_row_status s = elim (final_status s) [
  | failed ↦ session_failed
  | other ↦ if is_empty s.errors then session_completed else session_failed
]

-- `persist_node`, of which every call succeeds, or one raises
unfoldable pub persist : Bool → WorkState → WorkState
unfolding final_status
persist true s = record s { status = final_status s }
persist false s = record s { errors = s.errors ++ in_persist ∷ []; status = partial }

-- the assistant's messages, before a stream
unfoldable pub snapshot_assistant_message_ids : Messages → List ℕ
snapshot_assistant_message_ids t =
    map (λ (m : Message). m.id) (select (λ m. is_assistant m.role) (list_by_session 5000 t))

-- a message that is the assistant's, and new
abbrev pub is_new : List ℕ → Message → Bool
is_new before m = is_assistant m.role && not (is_in m.id before)

module _ (commits : ℕ → Write) where
  -- the loop over the messages listed; a deletion that fails is passed over
  unfoldable pub rollback_from : List ℕ → List Message → Messages → Messages
  rollback_from before [] t = t
  rollback_from before (m ∷ ms) t =
      rollback_from before ms (if is_new before m then (delete_message commits m.id t).1 else t)

  unfoldable pub rollback_stream_assistant_messages : List ℕ → Messages → Messages
  unfolding rollback_from
  rollback_stream_assistant_messages before t = rollback_from before (list_by_session 5000 t) t

abbrev pub pipeline_modules : List Processor
pipeline_modules = teacher ∷ coder ∷ code_explainer ∷ evaluator ∷ []

module _ (formatted : Processor → Dict Json → Option Formatted) (commits : ℕ → Write) (saved : Bool)
    (cancels : ℕ → Bool) (before : List ℕ) where
  -- the nodes that are left, the first of them with its number; before each, the stream may be cancelled
  unfoldable pub run_modules : ℕ → List Processor → WorkState → Messages → WorkState × Messages
  run_modules check [] s t =
      if cancels check
      then (record s { cancelled = true }, rollback_stream_assistant_messages commits before t)
      else (persist saved s, t)
  run_modules check (m ∷ ms) s t =
      let step = run_module formatted commits m s t in
      let rest = run_modules (suc check) ms step.0 step.1 in
      if cancels check
      then (record s { cancelled = true }, rollback_stream_assistant_messages commits before t)
      else rest

  unfoldable pub run_post_llm_pipeline : WorkState → Messages → WorkState × Messages
  unfolding run_modules
  run_post_llm_pipeline s t = run_modules 0 pipeline_modules s t
