-- ===== src/Ai/Workflow/Stream.antt =====
-- agents/shared/workflow/graph.py `execute_stream`, with the `planner_node` of nodes.py before it: what a
-- stream does with the messages of its session. The events it yields, but the last, are left out, and
-- so is what the planner and the model make but for how it ends. There is a repository of messages.
use recentthink_ai_be.Common.{ℕ, ◌+◌, Bool, true, false, Option, List, Dict, if◌then◌else◌}
use recentthink_ai_be.Ai.Json.{Json}
use recentthink_ai_be.Ai.Workflow.Types.{Processor, WorkState}
use recentthink_ai_be.Ai.Workflow.Messages.{Write, Messages, user, create_message}
use recentthink_ai_be.Ai.Workflow.Modules.{Formatted}
use recentthink_ai_be.Ai.Workflow.Pipeline.{
  rollback_stream_assistant_messages, snapshot_assistant_message_ids, run_post_llm_pipeline,
}

-- the planner raises before it stores the user's message, or when it reads the memory after it, or it
-- does not raise itself
pub data Plan : Type 0 where
  no_session no_memory planned : Plan

-- The model's part: the state with a cached answer; with one that was streamed and taken; one that was
-- streamed and not taken; a cancellation while it was streamed; another exception.
pub data Answer : Type 0 where
  from_cache : WorkState → Answer
  streamed : WorkState → Answer
  not_taken interrupted crashed : Answer

-- how a stream ends: with its response, as cancelled, or with another error
pub data End : Type 0 where
  completed cancelled failed : End

module _ (formatted : Processor → Dict Json → Option Formatted) (commits : ℕ → Write)
    (saved built : Bool) (cancels : ℕ → Bool) where
  -- `planner_node`: whether it has no errors
  unfoldable pub planner_messages : Plan → Messages → Bool × Messages
  unfolding create_message
  planner_messages no_session t = (false, t)
  planner_messages no_memory t = (false, (create_message commits user t).1)
  planner_messages planned t = create_message commits user t

  -- the response is built of a run that was not cancelled, or that raises
  abbrev pub end_of : WorkState × Messages → End × Messages
  end_of (s, t) = (if s.cancelled then cancelled else if built then completed else failed, t)

  -- from the state with an answer on, with the assistant's messages from before the stream
  abbrev pub after_state : List ℕ → WorkState → Messages → End × Messages
  after_state before s t =
      if cancels 1
      then (cancelled, rollback_stream_assistant_messages commits before t)
      else end_of (run_post_llm_pipeline formatted commits saved (λ i. cancels (i + 2)) before s t)

  -- the same from the model's part on
  unfoldable pub after_answer : List ℕ → Answer → Messages → End × Messages
  unfolding rollback_stream_assistant_messages run_post_llm_pipeline
  after_answer before (from_cache s) t = after_state before s t
  after_answer before (streamed s) t = after_state before s t
  after_answer before not_taken t =
      if cancels 1
      then (cancelled, rollback_stream_assistant_messages commits before t)
      else (failed, t)
  after_answer before interrupted t =
      (cancelled, rollback_stream_assistant_messages commits before t)
  after_answer before crashed t = (failed, t)

  abbrev pub after_planner : Answer → Bool × Messages → End × Messages
  after_planner answer (false, t) = (failed, t)
  after_planner answer (true, t) =
      if cancels 0 then (cancelled, t) else after_answer (snapshot_assistant_message_ids t) answer t

  unfoldable pub execute_stream : Plan → Answer → Messages → End × Messages
  unfolding planner_messages after_answer snapshot_assistant_message_ids
  execute_stream plan answer t = after_planner answer (planner_messages plan t)
