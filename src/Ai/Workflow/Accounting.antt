-- ===== src/Ai/Workflow/Accounting.antt =====
-- agents/shared/workflow/nodes.py: what each node adds to the responses and the errors.
use mathlib.Core.List.{append-nil, append_assoc}
use recentthink_ai_be.Common.{
  ℕ, ◌≡◌, refl, sym, ap, subst, ◌∙◌, Bool, true, false, Option, none, some, List, [], ◌∷◌, ◌++◌,
  Dict, arith, if◌then◌else◌,
}
use recentthink_ai_be.Ai.Json.{Json}
use recentthink_ai_be.Ai.Workflow.Types.{
  Processor, teacher, coder, code_explainer, evaluator, is_among, partial, Problem, in_module,
  in_persist, ModuleResponse, WorkState,
}
use recentthink_ai_be.Ai.Workflow.Messages.{Write, Messages, assistant, create_message}
use recentthink_ai_be.Ai.Workflow.Modules.{
  Formatted, payload_for, as_payload, module_failed, module_done, after_message, process,
  run_module,
}
use recentthink_ai_be.Ai.Workflow.Pipeline.{final_status, persist}

-- Each module that is to run has one response or one error, in the order of the modules.
pub data Accounts (to_run : List Processor)
    : List Processor → List ModuleResponse → List Problem → Type 0 where
  finished : Accounts to_run [] [] []
  skipped :
      (m : Processor) (ms : List Processor) (rs : List ModuleResponse) (es : List Problem)
      → is_among m to_run ≡ false
      → Accounts to_run ms rs es
      → Accounts to_run (m ∷ ms) rs es
  responded :
      (m : Processor) (ms : List Processor) (r : ModuleResponse) (rs : List ModuleResponse)
      (es : List Problem)
      → is_among m to_run ≡ true
      → r.module_name ≡ m
      → Accounts to_run ms rs es
      → Accounts to_run (m ∷ ms) (r ∷ rs) es
  raised :
      (m : Processor) (ms : List Processor) (rs : List ModuleResponse) (es : List Problem)
      → is_among m to_run ≡ true
      → Accounts to_run ms rs es
      → Accounts to_run (m ∷ ms) rs (in_module m ∷ es)

-- What the nodes from some module on add to a state: the responses, the errors, and the status of the end.
pub record Adds (saved : Bool) (ms : List Processor) (s s' : WorkState) : Type 0 where
  pub responses : List ModuleResponse
  pub problems : List Problem
  pub accounts : Accounts s.modules_to_run ms responses problems
  pub all_responses : s'.module_responses ≡ s.module_responses ++ responses
  pub all_errors : s'.errors ≡ s.errors ++ problems ++ (if saved then [] else in_persist ∷ [])
  pub ends_as :
      s'.status
      ≡ (if saved then final_status (record s { errors = s.errors ++ problems }) else partial)

-- the state after one node
pub data Step (m : Processor) (s s' : WorkState) : Type 0 where
  not_run : is_among m s.modules_to_run ≡ false → s' ≡ s → Step m s s'
  has_failed : is_among m s.modules_to_run ≡ true → s' ≡ module_failed m s → Step m s s'
  has_responded :
      (f : Formatted) → is_among m s.modules_to_run ≡ true → s' ≡ module_done m f s → Step m s s'

module _ (formatted : Processor → Dict Json → Option Formatted) (commits : ℕ → Write) where
  Step-after_message :
      (m : Processor) (f : Formatted) (s : WorkState) (r : Bool × Messages)
      → is_among m s.modules_to_run ≡ true
      → Step m s (after_message formatted commits m f s r).0
  Step-after_message m f s (true, t) e = has_responded f e refl
  Step-after_message m f s (false, t) e = has_failed e refl

  Step-process :
      (m : Processor) (s : WorkState) (t : Messages)
      → is_among m s.modules_to_run ≡ true
      → Step m s (process formatted commits m s t).0
  unfolding process
  Step-process m s t e = by_format (formatted m (as_payload (payload_for m s)))
    where
      by_format :
          (o : Option Formatted)
          → Step m s (
              (elim o as (λ o. WorkState × Messages) [
                | none ↦ (module_failed m s, t)
                | some f ↦
                    after_message formatted commits m f s (create_message commits assistant t)
              ]).0)
      by_format none = has_failed e refl
      by_format (some f) = Step-after_message m f s (create_message commits assistant t) e

  pub Step-run_module :
      (m : Processor) (s : WorkState) (t : Messages)
      → Step m s (run_module formatted commits m s t).0
  unfolding run_module
  Step-run_module m s t = by_plan (is_among m s.modules_to_run) refl
    where
      by_plan :
          (b : Bool)
          → is_among m s.modules_to_run ≡ b
          → Step m s
              (if◌then◌else◌ {A = WorkState × Messages} b
                (process formatted commits m s t)
                (s, t)).0
      by_plan true e = Step-process m s t e
      by_plan false e = not_run e refl

-- what a module that has responded leaves as it was
module_done_lem :
    (m : Processor) (f : Formatted) (s : WorkState)
    → ((module_done m f s).modules_to_run ≡ s.modules_to_run)
      × ((module_done m f s).errors ≡ s.errors)
      × ((module_done m f s).status ≡ s.status)
      × ((module_done m f s).module_responses
          ≡ s.module_responses
            ++ record { module_name = m; content = f.content; structured = f.structured } ∷ [])
module_done_lem teacher f s = (refl, refl, refl, refl)
module_done_lem coder f s = (refl, refl, refl, refl)
module_done_lem code_explainer f s = (refl, refl, refl, refl)
module_done_lem evaluator f s = (refl, refl, refl, refl)

-- the status of the end looks at the status and the errors alone
final_status_of :
    (s s' : WorkState)
    → s.status ≡ s'.status
    → s.errors ≡ s'.errors
    → final_status s ≡ final_status s'
unfolding final_status
final_status_of s s' p q = ground arith

module _ (saved : Bool) (m : Processor) (ms : List Processor) (s s' : WorkState) where
  Adds-not_run : is_among m s.modules_to_run ≡ false → Adds saved ms s s' → Adds saved (m ∷ ms) s s'
  Adds-not_run e a = record {
    responses = a.responses;
    problems = a.problems;
    accounts = skipped m ms a.responses a.problems e a.accounts;
    all_responses = a.all_responses;
    all_errors = a.all_errors;
    ends_as = a.ends_as;
  }

  Adds-failed :
      is_among m s.modules_to_run ≡ true
      → Adds saved ms (module_failed m s) s'
      → Adds saved (m ∷ ms) s s'
  Adds-failed e a = record {
    responses = a.responses;
    problems = in_module m ∷ a.problems;
    accounts = raised m ms a.responses a.problems e a.accounts;
    all_responses = a.all_responses;
    all_errors =
        a.all_errors
        ∙ ap (λ es. es ++ (if saved then [] else in_persist ∷ []))
            (append_assoc s.errors (in_module m ∷ []) a.problems);
    ends_as =
        a.ends_as
        ∙ ap (λ es. if saved then final_status (record s { errors = es }) else partial)
            (append_assoc s.errors (in_module m ∷ []) a.problems);
  }

  Adds-responded :
      (f : Formatted)
      → is_among m s.modules_to_run ≡ true
      → Adds saved ms (module_done m f s) s'
      → Adds saved (m ∷ ms) s s'
  Adds-responded f e a =
      let same = module_done_lem m f s in
      let r : ModuleResponse = record {
        module_name = m;
        content = f.content;
        structured = f.structured;
      } in
      record {
        responses = r ∷ a.responses;
        problems = a.problems;
        accounts =
            responded m ms r a.responses a.problems e refl
              (subst (λ runs. Accounts runs ms a.responses a.problems) same.0 a.accounts);
        all_responses =
            a.all_responses
            ∙ ap (λ rs. rs ++ a.responses) same.3
            ∙ append_assoc s.module_responses (r ∷ []) a.responses;
        all_errors =
            a.all_errors
            ∙ ap (λ es. es ++ a.problems ++ (if saved then [] else in_persist ∷ [])) same.1;
        ends_as =
            a.ends_as
            ∙ ap (λ t. if saved then t else partial)
                (final_status_of
                  (record (module_done m f s) { errors = (module_done m f s).errors ++ a.problems })
                  (record s { errors = s.errors ++ a.problems }) same.2
                  (ap (λ es. es ++ a.problems) same.1));
      }

pub Adds-Step :
    (saved : Bool) (m : Processor) (ms : List Processor) (s later s' : WorkState)
    → Step m s later
    → Adds saved ms later s'
    → Adds saved (m ∷ ms) s s'
Adds-Step saved m ms s later s' (not_run e q) a =
    Adds-not_run saved m ms s s' e (subst (λ x. Adds saved ms x s') q a)
Adds-Step saved m ms s later s' (has_failed e q) a =
    Adds-failed saved m ms s s' e (subst (λ x. Adds saved ms x s') q a)
Adds-Step saved m ms s later s' (has_responded f e q) a =
    Adds-responded saved m ms s s' f e (subst (λ x. Adds saved ms x s') q a)

pub Adds-persist : (saved : Bool) (s : WorkState) → Adds saved [] s (persist saved s)
unfolding persist
Adds-persist true s = record {
  responses = [];
  problems = [];
  accounts = finished;
  all_responses = sym (append-nil s.module_responses);
  all_errors = sym (append-nil (s.errors ++ []) ∙ append-nil s.errors);
  ends_as =
      final_status_of s (record s { errors = s.errors ++ [] }) refl (sym (append-nil s.errors));
}
Adds-persist false s = record {
  responses = [];
  problems = [];
  accounts = finished;
  all_responses = sym (append-nil s.module_responses);
  all_errors = ap (λ es. es ++ in_persist ∷ []) (sym (append-nil s.errors));
  ends_as = refl;
}
