-- ===== src/Ai/Workflow/Completion.antt =====
-- agents/shared/workflow/nodes.py `run_post_llm_pipeline`: what a run that is not cancelled answers.
use recentthink_ai_be.Common.{
  ℕ, suc, ◌≡◌, Bool, true, false, Option, List, [], ◌∷◌, Dict, if◌then◌else◌,
}
use recentthink_ai_be.Ai.Json.{Json}
use recentthink_ai_be.Ai.Workflow.Types.{Processor, WorkState}
use recentthink_ai_be.Ai.Workflow.Messages.{Write, Messages}
use recentthink_ai_be.Ai.Workflow.Modules.{Formatted, run_module}
use recentthink_ai_be.Ai.Workflow.Pipeline.{
  persist, rollback_stream_assistant_messages, run_modules, pipeline_modules, run_post_llm_pipeline,
}
use recentthink_ai_be.Ai.Workflow.Accounting.{Adds, Step-run_module, Adds-Step, Adds-persist}

module _ (formatted : Processor → Dict Json → Option Formatted) (commits : ℕ → Write) (saved : Bool)
    (cancels : ℕ → Bool) (before : List ℕ) where
  Adds-run_modules :
      (check : ℕ) (ms : List Processor) (s : WorkState) (t : Messages)
      → (run_modules formatted commits saved cancels before check ms s t).0.cancelled ≡ false
      → Adds saved ms s (run_modules formatted commits saved cancels before check ms s t).0
  unfolding run_modules
  Adds-run_modules check [] s t = by_check (cancels check)
    where
      by_check :
          (b : Bool)
          → (if◌then◌else◌ {A = WorkState × Messages} b
              (record s { cancelled = true }, rollback_stream_assistant_messages commits before t)
              (persist saved s, t)).0.cancelled
            ≡ false
          → Adds saved [] s
              (if◌then◌else◌ {A = WorkState × Messages} b
                (record s { cancelled = true }, rollback_stream_assistant_messages commits before t)
                (persist saved s, t)).0
      by_check true e = cc
      by_check false e = Adds-persist saved s
  Adds-run_modules check (m ∷ ms) s t = by_check (cancels check) (
      Adds-run_modules (suc check) ms (run_module formatted commits m s t).0
        (run_module formatted commits m s t).1)
    where
      rest : WorkState × Messages
      rest =
          run_modules formatted commits saved cancels before (suc check) ms
            (run_module formatted commits m s t).0 (run_module formatted commits m s t).1

      by_check :
          (b : Bool)
          → (rest.0.cancelled ≡ false → Adds saved ms (run_module formatted commits m s t).0 rest.0)
          → (if◌then◌else◌ {A = WorkState × Messages} b
              (record s { cancelled = true }, rollback_stream_assistant_messages commits before t)
              rest).0.cancelled
            ≡ false
          → Adds saved
              (m ∷ ms)
              s
              (if◌then◌else◌ {A = WorkState × Messages} b
                (record s { cancelled = true }, rollback_stream_assistant_messages commits before t)
                rest).0
      by_check true later e = cc
      by_check false later e =
          Adds-Step saved m ms s (run_module formatted commits m s t).0 rest.0
            (Step-run_module formatted commits m s t) (later e)

  -- A run that is not cancelled ends with one response or one error for each module that is to run, in the
  -- order of the modules, after those that were there. If the end is saved, the status is failed where it
  -- was failed, and else completed exactly if there is no error, and partial if there is; if it is not
  -- saved, there is one more error and the status is partial.
  pub pipeline_accounts :
      (s : WorkState) (t : Messages)
      → (run_post_llm_pipeline formatted commits saved cancels before s t).0.cancelled ≡ false
      → Adds saved pipeline_modules s
          (run_post_llm_pipeline formatted commits saved cancels before s t).0
  unfolding run_post_llm_pipeline
  pipeline_accounts s t = Adds-run_modules 0 pipeline_modules s t
