-- ===== src/Ai/Workflow/Cancelling.antt =====
-- agents/shared/workflow/nodes.py `run_post_llm_pipeline`: a stream that is cancelled between two nodes.
use mathlib.Core.List.{append-nil, append_assoc}
use recentthink_ai_be.Common.{
  ℕ, suc, ◌+◌, ◌-◌, ◌≤◌, ◌≡◌, refl, sym, ap, subst, ◌∙◌, Bool, true, false, Option, none, some,
  List, [], ◌∷◌, ◌++◌, Dict, All-append, arith, if◌then◌else◌,
}
use recentthink_ai_be.Ai.Json.{Json}
use recentthink_ai_be.Ai.Workflow.Types.{
  Processor, teacher, coder, code_explainer, evaluator, is_among, WorkState,
}
use recentthink_ai_be.Ai.Workflow.Messages.{
  Write, stored, unread, refused, is_committed, with_message, Messages, Message, assistant,
  is_assistant, created, create_message, list_by_session, take,
}
use recentthink_ai_be.Ai.Workflow.Modules.{
  Formatted, payload_for, as_payload, module_failed, after_message, process, run_module,
}
use recentthink_ai_be.Ai.Workflow.Pipeline.{
  persist, rollback_from, rollback_stream_assistant_messages, snapshot_assistant_message_ids,
  run_modules, pipeline_modules, run_post_llm_pipeline,
}
use recentthink_ai_be.Ai.Workflow.Rollback.{Below, Added, ids_of_assistant, rollback_restores}

abbrev pub length : List Message → ℕ
length [] = 0
length (m ∷ ms) = suc (length ms)

take_all : (n : ℕ) (ms : List Message) → length ms ≤ n → take n ms ≡ ms
take_all n [] h = refl
take_all n (m ∷ ms) h = ground (arith, take_all (n - 1) ms)

pub length-append : (xs ys : List Message) → length (xs ++ ys) ≡ length xs + length ys
length-append [] ys = omega arith
length-append (x ∷ xs) ys = omega (arith, length-append xs ys)

abbrev count_of : List Processor → ℕ
count_of [] = 0
count_of (m ∷ ms) = suc (count_of ms)

persist_on :
    (saved : Bool) (s : WorkState) → s.cancelled ≡ false → ¬ ((persist saved s).cancelled ≡ true)
unfolding persist
persist_on true s c q = cc
persist_on false s c q = cc

-- The messages are the old ones and at most so many new ones of the assistant.
record Grown (old : List Message) (n most : ℕ) (t : Messages) : Type 0 where
  new : List Message
  rows : t.rows ≡ old ++ new
  added : Added n new
  few : length new ≤ most
  on : n ≤ t.next

module _ (formatted : Processor → Dict Json → Option Formatted) (commits : ℕ → Write)
    (old : List Message) (n : ℕ) where
  Grown-with_message :
      (most : ℕ) (t : Messages)
      → Grown old n most t
      → Grown old n (suc most) (with_message assistant t)
  Grown-with_message most t g =
      let message : Message = record { id = t.next; role = assistant } in
      record {
        new = g.new ++ message ∷ [];
        rows = ap (λ rows. rows ++ message ∷ []) g.rows ∙ append_assoc old g.new (message ∷ []);
        added =
            All-append (λ m. (is_assistant m.role ≡ true) × (n ≤ m.id)) g.new (message ∷ []) g.added
              ((refl, g.on), tt);
        few = omega (arith, g.few, length-append g.new (message ∷ []));
        on = omega (arith, g.on);
      }

  Grown-created :
      (most : ℕ) (b : Write) (t : Messages)
      → Grown old n most t
      → Grown old n (suc most) (created b assistant t).1
  Grown-created most stored t g = Grown-with_message most t g
  Grown-created most unread t g = Grown-with_message most t g
  Grown-created most refused t g = record {
    new = g.new;
    rows = g.rows;
    added = g.added;
    few = omega (arith, g.few);
    on = g.on;
  }

  Grown-more : (most : ℕ) (t : Messages) → Grown old n most t → Grown old n (suc most) t
  Grown-more most t g = record {
    new = g.new;
    rows = g.rows;
    added = g.added;
    few = omega (arith, g.few);
    on = g.on;
  }

  -- a node adds one message at most, and does not cancel
  abbrev AddedOne : ℕ → Bool → WorkState × Messages → Type 0
  AddedOne most cancelled (s, t) = Grown old n most t × (s.cancelled ≡ cancelled)

  Added_one-after_message :
      (most : ℕ) (m : Processor) (f : Formatted) (s : WorkState) (r : Bool × Messages)
      → Grown old n most r.1
      → AddedOne most s.cancelled (after_message formatted commits m f s r)
  Added_one-after_message most teacher f s (true, t) g = (g, refl)
  Added_one-after_message most coder f s (true, t) g = (g, refl)
  Added_one-after_message most code_explainer f s (true, t) g = (g, refl)
  Added_one-after_message most evaluator f s (true, t) g = (g, refl)
  Added_one-after_message most m f s (false, t) g = (g, refl)

  Added_one-process :
      (most : ℕ) (m : Processor) (s : WorkState) (t : Messages)
      → Grown old n most t
      → AddedOne (suc most) s.cancelled (process formatted commits m s t)
  unfolding process create_message
  Added_one-process most m s t g =
      elim (formatted m (as_payload (payload_for m s)))
        as (λ o. AddedOne (suc most) s.cancelled (elim o [
          | none ↦ (module_failed m s, t)
          | some f ↦ after_message formatted commits m f s (created (commits t.commits) assistant t)
        ])) [
          | none ↦ (Grown-more most t g, refl)
          | some f ↦
              Added_one-after_message (suc most) m f s (created (commits t.commits) assistant t)
                (Grown-created most (commits t.commits) t g)
        ]

  Added_one-run_module :
      (most : ℕ) (m : Processor) (s : WorkState) (t : Messages)
      → Grown old n most t
      → AddedOne (suc most) s.cancelled (run_module formatted commits m s t)
  unfolding run_module
  Added_one-run_module most m s t g =
      elim (is_among m s.modules_to_run)
        as (λ b.
          AddedOne (suc most) s.cancelled (if b then process formatted commits m s t else (s, t))) [
            | true ↦ Added_one-process most m s t g
            | false ↦ (Grown-more most t g, refl)
          ]

module _ (formatted : Processor → Dict Json → Option Formatted) (commits : ℕ → Write)
    (works : (i : ℕ) → is_committed (commits i) ≡ true) (saved : Bool) (cancels : ℕ → Bool) (n : ℕ)
    (old : List Message) (below : Below n old) where
  -- what a run leaves if it is cancelled
  abbrev Restored : WorkState × Messages → Type 0
  Restored (s, t) = s.cancelled ≡ true → t.rows ≡ old

  rollback_Grown :
      (most : ℕ) (t : Messages)
      → Grown old n most t
      → length old + most ≤ 5000
      → (rollback_stream_assistant_messages commits (ids_of_assistant old) t).rows ≡ old
  unfolding rollback_stream_assistant_messages
  rollback_Grown most t g enough =
      let all : list_by_session 5000 t ≡ old ++ g.new =
        ap (take 5000) g.rows
        ∙ take_all 5000 (old ++ g.new) (omega (arith, g.few, length-append old g.new)) in
      ap (λ ms. (rollback_from commits (ids_of_assistant old) ms t).rows) all
      ∙ rollback_restores commits works n old g.new t below g.added g.rows

  Restored-run_modules :
      (check most : ℕ) (ms : List Processor) (s : WorkState) (t : Messages)
      → Grown old n most t
      → length old + most + count_of ms ≤ 5000
      → s.cancelled ≡ false
      → Restored (run_modules formatted commits saved cancels (ids_of_assistant old) check ms s t)
  unfolding run_modules
  Restored-run_modules check most [] s t g enough c =
      elim (cancels check)
        as (λ b. Restored (
          if b
          then (
            record s { cancelled = true },
            rollback_stream_assistant_messages commits (ids_of_assistant old) t,
          )
          else (persist saved s, t))) [
            | true ↦ λ _. rollback_Grown most t g (omega arith)
            | false ↦ λ q. absurd (persist_on saved s c q)
          ]
  Restored-run_modules check most (m ∷ ms) s t g enough c =
      let one = Added_one-run_module formatted commits old n most m s t g in
      elim (cancels check)
        as (λ b. Restored (
          if b
          then (
            record s { cancelled = true },
            rollback_stream_assistant_messages commits (ids_of_assistant old) t,
          )
          else run_modules formatted commits saved cancels (ids_of_assistant old) (suc check) ms
              (run_module formatted commits m s t).0 (run_module formatted commits m s t).1)) [
                | true ↦ λ _. rollback_Grown most t g (omega arith)
                | false ↦
                    Restored-run_modules (suc check) (suc most) ms
                      (run_module formatted commits m s t).0 (run_module formatted commits m s t).1
                      one.0 (omega arith) (one.1 ∙ c)
              ]

-- a rollback before any node has run removes nothing
pub rollback-snapshot :
    (commits : ℕ → Write) (t : Messages)
    → ((i : ℕ) → is_committed (commits i) ≡ true)
    → Below t.next t.rows
    → length t.rows ≤ 5000
    → (rollback_stream_assistant_messages commits (snapshot_assistant_message_ids t) t).rows
      ≡ t.rows
unfolding snapshot_assistant_message_ids
rollback-snapshot commits t works below few =
    let all : list_by_session 5000 t ≡ t.rows = take_all 5000 t.rows (omega arith) in
    subst (λ ms. (rollback_stream_assistant_messages commits (ids_of_assistant ms) t).rows ≡ t.rows)
      (sym all)
      (rollback_Grown (λ m payload. none) commits works true (λ i. false) t.next t.rows below 0 t
        (record {
          new = [];
          rows = sym (append-nil t.rows);
          added = tt;
          few = omega arith;
          on = omega arith;
        })
        (omega arith))

-- The nodes after the answer, cancelled between two of them, leave the messages of the session as they
-- were before these nodes, whichever of them had run and stored a message.
pub cancel_restores :
    (formatted : Processor → Dict Json → Option Formatted) (commits : ℕ → Write) (saved : Bool)
    (cancels : ℕ → Bool) (s : WorkState) (t : Messages)
    → ((i : ℕ) → is_committed (commits i) ≡ true)
    → Below t.next t.rows
    → length t.rows ≤ 4996
    → s.cancelled ≡ false
    → (run_post_llm_pipeline formatted commits saved cancels
        (snapshot_assistant_message_ids t)
        s
        t).0.cancelled
      ≡ true
    → (run_post_llm_pipeline formatted commits saved cancels
        (snapshot_assistant_message_ids t)
        s
        t).1.rows
      ≡ t.rows
unfolding run_post_llm_pipeline snapshot_assistant_message_ids
cancel_restores formatted commits saved cancels s t works below few c =
    let all : list_by_session 5000 t ≡ t.rows = take_all 5000 t.rows (omega arith) in
    subst
      (λ ms.
        Restored formatted commits works saved cancels t.next t.rows below (
          run_modules formatted commits saved cancels (ids_of_assistant ms) 0 pipeline_modules s t))
      (sym all)
      (Restored-run_modules formatted commits works saved cancels t.next t.rows below 0 0
        pipeline_modules s t
        (record {
          new = [];
          rows = sym (append-nil t.rows);
          added = tt;
          few = omega arith;
          on = omega arith;
        })
        (omega arith) c)
