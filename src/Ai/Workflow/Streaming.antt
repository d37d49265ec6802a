-- ===== src/Ai/Workflow/Streaming.antt =====
-- agents/shared/workflow/graph.py `execute_stream`: the messages after a stream that was cancelled.
use recentthink_ai_be.Common.{
  ℕ, suc, ◌+◌, ◌≤◌, ◌<◌, ◌≡◌, refl, Bool, true, false, Option, List, [], ◌∷◌, ◌++◌, Dict,
  All-append, arith, if◌then◌else◌,
}
use recentthink_ai_be.Ai.Json.{Json}
use recentthink_ai_be.Ai.Workflow.Types.{Processor, WorkState}
use recentthink_ai_be.Ai.Workflow.Messages.{
  Write, stored, unread, refused, is_committed, Messages, Message, user, with_message, created,
}
use recentthink_ai_be.Ai.Workflow.Modules.{Formatted}
use recentthink_ai_be.Ai.Workflow.Pipeline.{
  rollback_stream_assistant_messages, snapshot_assistant_message_ids, run_post_llm_pipeline,
}
use recentthink_ai_be.Ai.Workflow.Rollback.{Below}
use recentthink_ai_be.Ai.Workflow.Cancelling.{
  length, length-append, rollback-snapshot, cancel_restores,
}
use recentthink_ai_be.Ai.Workflow.Stream.{
  Plan, no_session, no_memory, planned, Answer, from_cache, streamed, not_taken, interrupted,
  crashed, End, cancelled, failed, end_of, after_answer, after_planner, execute_stream,
}

-- the state that comes with an answer has not been cancelled
abbrev pub IsRunning : Answer → Type 0
IsRunning (from_cache s) = s.cancelled ≡ false
IsRunning (streamed s) = s.cancelled ≡ false
IsRunning not_taken = Unit
IsRunning interrupted = Unit
IsRunning crashed = Unit

-- the user's message, as the planner stores it
abbrev pub asked : Messages → Message
asked t = record { id = t.next; role = user }

Below-later : (n : ℕ) (ms : List Message) → Below n ms → Below (suc n) ms
Below-later n [] below = tt
Below-later n (m ∷ ms) below = let low = below.0 in (omega (arith, low), Below-later n ms below.1)

module _ (formatted : Processor → Dict Json → Option Formatted) (commits : ℕ → Write)
    (works : (i : ℕ) → is_committed (commits i) ≡ true) (saved built : Bool)
    (cancels : ℕ → Bool) where
  -- what is left of a stream that was cancelled
  abbrev Leaves : List Message → End × Messages → Type 0
  Leaves rows (e, t) = e ≡ cancelled → t.rows ≡ rows

  Leaves-end_of :
      (rows : List Message) (r : WorkState × Messages)
      → (r.0.cancelled ≡ true → r.1.rows ≡ rows)
      → Leaves rows (end_of formatted commits saved built cancels r)
  Leaves-end_of rows (s, t) kept q = kept (ground arith)

  module _ (t : Messages) (below : Below t.next t.rows) (few : length t.rows ≤ 4996) where
    Leaves-run :
        (s : WorkState)
        → s.cancelled ≡ false
        → Leaves t.rows (
            if cancels 1
            then (
              cancelled,
              rollback_stream_assistant_messages commits (snapshot_assistant_message_ids t) t,
            )
            else end_of formatted commits saved built cancels (
                run_post_llm_pipeline formatted commits saved
                  (λ i. cancels (i + 2))
                  (snapshot_assistant_message_ids t)
                  s
                  t))
    Leaves-run s running =
        elim (cancels 1)
          as (λ b. Leaves t.rows (
            if b
            then (
              cancelled,
              rollback_stream_assistant_messages commits (snapshot_assistant_message_ids t) t,
            )
            else end_of formatted commits saved built cancels (
                run_post_llm_pipeline formatted commits saved (λ i. cancels (i + 2))
                  (snapshot_assistant_message_ids t) s t))) [
                    | true ↦ λ _. rollback-snapshot commits t works below (omega (arith, few))
                    | false ↦
                        Leaves-end_of t.rows
                          (run_post_llm_pipeline formatted commits saved (λ i. cancels (i + 2))
                            (snapshot_assistant_message_ids t) s t)
                          (cancel_restores formatted commits saved (λ i. cancels (i + 2)) s t works
                            below few running)
                  ]

    Leaves-after_answer :
        (answer : Answer)
        → IsRunning answer
        → Leaves t.rows (
            after_answer formatted commits saved built cancels
              (snapshot_assistant_message_ids t)
              answer
              t)
    unfolding after_answer
    Leaves-after_answer (from_cache s) running = Leaves-run s running
    Leaves-after_answer (streamed s) running = Leaves-run s running
    Leaves-after_answer not_taken running =
        elim (cancels 1)
          as (λ b. Leaves t.rows (
            if b
            then (
              cancelled,
              rollback_stream_assistant_messages commits (snapshot_assistant_message_ids t) t,
            )
            else (failed, t))) [
              | true ↦ λ _. rollback-snapshot commits t works below (omega (arith, few))
              | false ↦ λ q. cc
            ]
    Leaves-after_answer interrupted running =
        λ q. rollback-snapshot commits t works below (omega (arith, few))
    Leaves-after_answer crashed running = λ q. cc

    Leaves-true :
        (answer : Answer)
        → IsRunning answer
        → Leaves t.rows (after_planner formatted commits saved built cancels answer (true, t))
    Leaves-true answer running =
        elim (cancels 0)
          as (λ b. Leaves t.rows (
            if b
            then (cancelled, t)
            else after_answer formatted commits saved built cancels
                (snapshot_assistant_message_ids t) answer t)) [
                  | true ↦ λ _. refl
                  | false ↦ Leaves-after_answer answer running
                ]

  module _ (t : Messages) (below : Below t.next t.rows) (few : length t.rows ≤ 4995)
      (answer : Answer) (running : IsRunning answer) where
    Leaves-created :
        (w : Write)
        → Leaves
            (t.rows ++ asked t ∷ [])
            (after_planner formatted commits saved built cancels answer (created w user t))
    Leaves-created stored =
        Leaves-true (with_message user t)
          (All-append (λ m. m.id < suc t.next) t.rows (asked t ∷ [])
            (Below-later t.next t.rows below) (omega arith, tt))
          (omega (arith, few, length-append t.rows (asked t ∷ []))) answer running
    Leaves-created unread = λ q. cc
    Leaves-created refused = λ q. cc

  -- A stream that ends as cancelled, wherever it is cancelled, leaves the messages of its session
  -- as they were before it and, after them, the message of the user that the planner stored: every
  -- message of the assistant that a node stored is gone. This is so where every commit succeeds,
  -- also if a message cannot be read again after one, where the messages have numbers below the
  -- next one and are at most 4995, and where the state that comes with the answer is not marked as
  -- cancelled.
  pub stream_cancel_restores :
      (plan : Plan) (answer : Answer) (t : Messages)
      → Below t.next t.rows
      → length t.rows ≤ 4995
      → IsRunning answer
      → (execute_stream formatted commits saved built cancels plan answer t).0 ≡ cancelled
      → (execute_stream formatted commits saved built cancels plan answer t).1.rows
        ≡ t.rows ++ asked t ∷ []
  unfolding execute_stream
  stream_cancel_restores no_session answer t below few running = λ q. cc
  stream_cancel_restores no_memory answer t below few running = λ q. cc
  stream_cancel_restores planned answer t below few running =
      Leaves-created t below few answer running (commits t.commits)
