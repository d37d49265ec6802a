-- ===== src/Ai/Workflow/Messages.antt =====
-- repositories/ai_message_repository.py, of one session: the messages of a chat. The database gives each
-- new message a number of its own. A write may fail before or after its commit.
use recentthink_ai_be.Common.{
  ℕ, suc, ◌-◌, Bool, true, false, List, [], ◌∷◌, ◌++◌, ◌==◌, ◌||◌, not, select, if◌then◌else◌,
}

pub data MessageRole : Type 0 where
  user : MessageRole
  assistant : MessageRole
  system : MessageRole

abbrev pub is_assistant : MessageRole → Bool
is_assistant assistant = true
is_assistant user = false
is_assistant system = false

pub record Message : Type 0 where
  pub id : ℕ
  pub role : MessageRole

-- the messages, oldest first, the number of the next, and how many commits there were
pub record Messages : Type 0 where
  pub rows : List Message
  pub next : ℕ
  pub commits : ℕ

abbrev pub take : ℕ → List Message → List Message
take n [] = []
take n (m ∷ ms) = let rest = take (n - 1) ms in if n == 0 then [] else m ∷ rest

-- A write is committed, or not. The message that was written is read again after the commit (`refresh`),
-- which may fail too: then the write raises, although it stays.
pub data Write : Type 0 where
  stored unread refused : Write

abbrev pub is_committed : Write → Bool
is_committed refused = false
is_committed _ = true

abbrev pub with_message : MessageRole → Messages → Messages
with_message role t = record t {
  rows = t.rows ++ record { id = t.next; role = role } ∷ [];
  next = suc t.next;
  commits = suc t.commits;
}

-- whether the call returns, and the messages after it
abbrev pub created : Write → MessageRole → Messages → Bool × Messages
created stored role t = (true, with_message role t)
created unread role t = (false, with_message role t)
created refused role t = (false, record t { commits = suc t.commits })

-- what the writes come to
module _ (commits : ℕ → Write) where
  unfoldable pub create_message : MessageRole → Messages → Bool × Messages
  create_message role t = created (commits t.commits) role t

  -- the message is there: it was listed just before
  unfoldable pub delete_message : ℕ → Messages → Bool × Messages
  delete_message id t =
      if is_committed (commits t.commits)
      then (
        true,
        record t { rows = select (λ m. not (m.id == id)) t.rows; commits = suc t.commits },
      )
      else (false, record t { commits = suc t.commits })

-- `list_by_session`, from the first message on
abbrev pub list_by_session : ℕ → Messages → List Message
list_by_session limit t = take limit t.rows

abbrev pub is_in : ℕ → List ℕ → Bool
is_in id [] = false
is_in id (i ∷ is_) = i == id || is_in id is_
