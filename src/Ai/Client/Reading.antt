-- ===== src/Ai/Client/Reading.antt =====
-- clients/openrouter.py `_request_completion`, after the loop: what is read from the body of an answer.
-- Nothing stands for an exception. `shown` is `str` of a value that is no text, and `int_of` is `int` of a
-- text, both Python's own.
use Prim.Native.Char.{code}
use Prim.Native.String.{◌++◌}
use recentthink_ai_be.Common.{
  ℕ, String, Bool, true, false, Option, none, some, Dict, [], lookup, ◌==◌, if◌then◌else◌,
}
use recentthink_ai_be.Ai.Json.{
  Json, boolean, number, text, array, object, Items, item, last, end, items, as_dict, dict_at,
  is_truthy,
}
use recentthink_ai_be.Ai.Client.Types.{Completion}

infixl 15 ◌>>=◌
abbrev ◌>>=◌ : {A B : Type 0} → Option A → (A → Option B) → Option B
none >>= k = none
some x >>= k = k x

abbrev up_to_slash : String → String
up_to_slash String.[] = String.[]
up_to_slash (String.◌∷◌ c cs) =
    let rest = up_to_slash cs in if code c == 47 then String.[] else String.◌∷◌ c rest

abbrev has_slash : String → Bool
has_slash String.[] = false
has_slash (String.◌∷◌ c cs) = if code c == 47 then true else has_slash cs

-- `parse_provider`
unfoldable pub parse_provider : String → String
parse_provider model = if has_slash model then up_to_slash model else "unknown"

-- `value or [{}]`
abbrev choices_or_empty : Option Json → Json
choices_or_empty none = array (item (object end) last)
choices_or_empty (some v) = if is_truthy (some v) then v else array (item (object end) last)

-- `value[0]`
abbrev first_of : Json → Option Json
first_of (array (item x xs)) = some x
first_of (text (String.◌∷◌ c cs)) = some (text (String.◌∷◌ c String.[]))
first_of _ = none

unfoldable pub first_choice : Dict Json → Option Json
unfolding is_truthy
first_choice body = first_of (choices_or_empty (lookup "choices" body))

-- `data.get("usage", {})`, which must be a dict
unfoldable pub usage_of : Dict Json → Option (Dict Json)
usage_of body = elim (lookup "usage" body) [ none ↦ some [] | some v ↦ as_dict v ]

module _ (shown : Json → String) (int_of : String → Option ℕ) where
  abbrev str : Json → String
  str (text s) = s
  str v = shown v

  -- `str(d.get(key, default))`
  abbrev str_at : String → String → Dict Json → String
  str_at key default d = elim (lookup key d) [ none ↦ default | some v ↦ str v ]

  -- the text of a part of the content
  abbrev part_text : Json → String
  part_text (object fs) = str_at "text" "" (items fs)
  part_text v = str v

  abbrev joined : Items → String
  joined last = ""
  joined (item x xs) = part_text x ++ joined xs

  abbrev content_text : Option Json → String
  content_text (some (text s)) = s
  content_text (some (array xs)) = joined xs
  content_text _ = ""

  -- the content of a choice, if it is a dict with a dict as its message
  unfoldable pub content_of : Json → String
  content_of choice = elim (as_dict choice) [
    | none ↦ ""
    | some c ↦ elim (dict_at (lookup "message" c)) [
      | none ↦ ""
      | some m ↦ content_text (lookup "content" m)
    ]
  ]

  -- `int(usage.get(key, 0))`
  unfoldable pub int_at : String → Dict Json → Option ℕ
  int_at key usage = elim (lookup key usage) [
    | none ↦ some 0
    | some (number n) ↦ some n
    | some (boolean b) ↦ some (if b then 1 else 0)
    | some (text s) ↦ int_of s
    | some _ ↦ none
  ]

  -- `str(finish_reason) if finish_reason else None`
  unfoldable pub finish_reason_of : Json → Option String
  unfolding is_truthy
  finish_reason_of choice = elim (as_dict choice) [
    | none ↦ none
    | some c ↦ elim (lookup "finish_reason" c) [
      | none ↦ none
      | some v ↦ if is_truthy (some v) then some (str v) else none
    ]
  ]

  unfoldable pub read_dict : String → Dict Json → Option Completion
  unfolding parse_provider first_choice usage_of content_of int_at finish_reason_of
  read_dict model body = do
    choice ← first_choice body
    usage ← usage_of body
    prompt_tokens ← int_at "prompt_tokens" usage
    completion_tokens ← int_at "completion_tokens" usage
    some (record {
      response = record {
        content = content_of choice;
        finish_reason = finish_reason_of choice;
        prompt_tokens = prompt_tokens;
        completion_tokens = completion_tokens;
      };
      model = str_at "model" model body;
      provider = parse_provider (str_at "model" model body);
    })

  -- a body that is no dict has no `get`
  abbrev pub read_completion : String → Json → Option Completion
  read_completion model body = elim (as_dict body) [ none ↦ none | some d ↦ read_dict model d ]
