-- ===== src/Ai/Children.antt =====
-- utils/section_tokens.py: the children of a nested payload that a merge takes.
use recentthink_ai_be.Common.{
  ◌≡◌, refl, ap, ◌≤◌, String, Bool, true, List, [], ◌∷◌, arith, Dict, lookup, insert, occurs,
  lookup-none, lookup-insert_if, eq_iff, ◌||◌, if◌then◌else◌,
}
use recentthink_ai_be.Common.Texts.{strip, same_letters-is_lower_of}
use recentthink_ai_be.Ai.Json.{Json, items, fields}
use recentthink_ai_be.Ai.Sections.{allows, allows_lowered, take_children, take_named}
use recentthink_ai_be.Ai.Merging.{or_prior, taken_if}

pub allows_lowered-allows :
    (sections : List String) (key : String)
    → allows sections key ≡ true
    → allows_lowered sections key ≡ true
unfolding allows allows_lowered
allows_lowered-allows [] key h = h
allows_lowered-allows (s ∷ sections) key h =
    ground (arith, same_letters-is_lower_of (strip s) key, allows_lowered-allows sections key)

pub items-fields : (d : Dict Json) → items (fields d) ≡ d
items-fields [] = refl
items-fields ((k, v) ∷ d) = ap (λ e. (k, v) ∷ e) (items-fields d)

pub lookup-take_children :
    (sections : List String) (whole : Bool) (children base : Dict Json) (other : String)
    → occurs other children ≤ 1
    → lookup other (take_children sections whole children base)
      ≡ or_prior
          (taken_if (allows_lowered sections other || whole) (lookup other children))
          (lookup other base)
unfolding take_children
lookup-take_children sections whole [] base other h = ground arith
lookup-take_children sections whole ((k, v) ∷ children) base other h = ground (
  arith,
  eq_iff k other,
  lookup-none other children,
  lookup-insert_if k other v base,
  lookup-take_children sections whole children
      (if allows_lowered sections k || whole then insert k v base else base) other,
)

pub lookup-take_named :
    (sections : List String) (children base : Dict Json) (other : String)
    → occurs other children ≤ 1
    → lookup other (take_named sections children base)
      ≡ or_prior (taken_if (allows sections other) (lookup other children)) (lookup other base)
unfolding take_named
lookup-take_named sections [] base other h = ground arith
lookup-take_named sections ((k, v) ∷ children) base other h = ground (
  arith,
  eq_iff k other,
  lookup-none other children,
  lookup-insert_if k other v base,
  lookup-take_named sections children (if allows sections k then insert k v base else base) other,
)
