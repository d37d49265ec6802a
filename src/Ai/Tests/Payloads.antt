-- ===== src/Ai/Tests/Payloads.antt =====
-- Payloads of a few sections.
use recentthink_ai_be.Common.{
  ℕ, ◌+◌, ◌*◌, ◌%◌, ◌≤◌, ◌<◌, ◌≡◌, ◌⊎◌, refl, none, some, [], ◌∷◌, Dict, lookup, arith,
}
use recentthink_ai_be.Ai.Json.{Json, number, text, object, field, end}
use recentthink_ai_be.Ai.Sections.{
  filter_payload_to_sections, merge_llm_payload, resolve_prior_payload,
}
use recentthink_ai_be.Ai.Estimate.{Measures, total, weights_of, estimate_section_tokens}
use recentthink_ai_be.Ai.Allocation.{estimate_total}
use recentthink_ai_be.Ai.Fairness.{estimate_fair, value_at}
use recentthink_ai_be.Ai.Merging.{or_prior, taken_if}
use recentthink_ai_be.Ai.Nests.{merge_children, nest, is_asked}

abbrev pub dumped : Json → ℕ
dumped (text s) = 12
dumped (object fs) = 30
dumped _ = 4

abbrev pub measures : Measures
measures = record { dumped_length = dumped; fraction = λ tokens weight sum. tokens * weight % sum }

abbrev old_teacher : Json
old_teacher = text "two pointers"

abbrev new_teacher : Json
new_teacher = text "a hash map"

abbrev quiz : Json
quiz = object (field "question" (text "why?") end)

abbrev prior : Dict Json
prior =
    ("teacher", old_teacher)
    ∷ ("coder", number 1)
    ∷ ("course", object (field "quiz" (number 2) (field "roadmap" (number 3) end)))
    ∷ []

abbrev answer : Dict Json
answer =
    ("teacher", new_teacher)
    ∷ ("coder", number 7)
    ∷ ("course", object (field "quiz" quiz (field "roadmap" (number 8) end)))
    ∷ []

estimated :
    estimate_section_tokens measures (some answer) 100 none
    ≡ ("teacher", 24) ∷ ("coder", 8) ∷ ("quiz", 60) ∷ ("roadmap", 8) ∷ []
unfolding estimate_section_tokens
estimated = refl

-- the second section is asked for by its name, in other letters and with spaces
merged :
    merge_llm_payload (some prior) answer (some ("teacher" ∷ " Quiz " ∷ []))
    ≡ ("teacher", new_teacher)
      ∷ ("coder", number 1)
      ∷ ("course", object (field "quiz" quiz (field "roadmap" (number 3) end)))
      ∷ ("feature", object (field "quiz" quiz (field "roadmap" (number 3) end)))
      ∷ []
unfolding merge_llm_payload
merged = refl

filtered :
    filter_payload_to_sections (some answer) (some ("coder" ∷ "quiz" ∷ []))
    ≡ ("coder", number 7) ∷ ("course", object (field "quiz" quiz end)) ∷ []
unfolding filter_payload_to_sections
filtered = refl

found_prior :
    resolve_prior_payload none (
      some (
        ("coder_output", object (field "code" (number 1) end))
        ∷ ("course", object (field "quiz" quiz end))
        ∷ []))
    ≡ some (
        ("coder", object (field "code" (number 1) end))
        ∷ ("feature", object (field "quiz" quiz end))
        ∷ [])
unfolding resolve_prior_payload
found_prior = refl

some_weight : 0 < total (weights_of measures answer none)
unfolding weights_of
some_weight = omega arith

estimate_total_example :
    (0 < total (weights_of measures answer none)
      → total (estimate_section_tokens measures (some answer) 100 none) ≡ 100)
    × ((◌≡◌ {A = ℕ} 100 0) ⊎ (total (weights_of measures answer none) ≡ 0)
        → estimate_section_tokens measures (some answer) 100 none ≡ [])
    × (estimate_section_tokens measures none 100 none ≡ [])
estimate_total_example = estimate_total measures answer 100 none

estimate_fair_example :
    (100 * value_at "quiz" (weights_of measures answer none)
      < (value_at "quiz" (estimate_section_tokens measures (some answer) 100 none) + 1)
        * total (weights_of measures answer none))
    × (value_at "quiz" (estimate_section_tokens measures (some answer) 100 none)
          * total (weights_of measures answer none)
        ≤ 100 * value_at "quiz" (weights_of measures answer none)
          + total (weights_of measures answer none))
estimate_fair_example = estimate_fair measures "quiz" answer 100 none some_weight

merge_children_example :
    lookup "quiz"
      (nest "course" (merge_llm_payload (some prior) answer (some ("teacher" ∷ "quiz" ∷ []))))
    ≡ or_prior
        (taken_if (is_asked ("teacher" ∷ "quiz" ∷ []) "course" "quiz") (some quiz))
        (some (number 2))
merge_children_example =
    merge_children prior answer (("quiz", quiz) ∷ ("roadmap", number 8) ∷ []) "teacher"
      ("quiz" ∷ []) "course" "quiz" refl refl (omega arith)
