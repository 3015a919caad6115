-- ===== src/Ingest/Turns/Grouping.antt =====
-- The exchanges of a conversation, read from its end: a prompt takes the answers up to the next.
use ga_ottt.Base.{ℕ, ◌+◌, Bool, Option, none, some, List, [], ◌∷◌, ◌++◌, if◌then◌else◌, length, ltb}
use ga_ottt.Ingest.Text.{is_empty, strip}
use ga_ottt.Ingest.{chunk_text}
use ga_ottt.Ingest.ActivePath.{Node}
use ga_ottt.Ingest.Messages.{Role, user, assistant, tool, Message, join_parts, openai_extract_text}
use ga_ottt.Ingest.Turns.{Document, or_empty, sections_of, documents_of, started, assistant_text}

-- What the loop sees of the messages.
pub data Event : Type 0 where
  prompt answer : List ℕ → Event

abbrev pub text_event : (List ℕ → Event) → List ℕ → List Event → List Event
text_event kind text es = if is_empty text then es else kind text ∷ es

abbrev pub role_event : Role → List ℕ → List Event → List Event
role_event user text es = text_event prompt text es
role_event assistant text es = text_event answer text es
role_event tool text es = text_event answer text es
role_event _ text es = es

-- An exchange: its prompt, if it has one, and its answers.
abbrev pub Exchange : Type 0
Exchange = Option (List ℕ) × List (List ℕ)

-- The answers before the first prompt, and the exchanges from there on.
unfoldable pub grouped : List Event → List (List ℕ) × List Exchange
grouped [] = ([], [])
grouped (answer t ∷ es) = (t ∷ (grouped es).0, (grouped es).1)
grouped (prompt t ∷ es) = ([], (some t, (grouped es).0) ∷ (grouped es).1)

abbrev pub with_first : Option (List ℕ) → List (List ℕ) → List Exchange → List Exchange
with_first u ps gs = if started u ps then (u, ps) ∷ gs else gs

unfoldable pub exchanges : List Event → List Exchange
unfolding grouped started
exchanges es = with_first none (grouped es).0 (grouped es).1

abbrev pub prefixed : List Document → Option (List Document) → Option (List Document)
prefixed ds none = none
prefixed ds (some es) = some (ds ++ es)

-- The documents of a turn before those of the others.
abbrev pub turn_then : ℕ → Option (List (List ℕ)) → Option (List Document) → Option (List Document)
turn_then turn none rest = none
turn_then turn (some chunks) rest = prefixed (documents_of turn (length chunks) 0 chunks) rest

module _ (is_space : ℕ → Bool) where
  abbrev pub message_event : Bool → Option Message → List Event → List Event
  message_event include_tool_results none es = es
  message_event include_tool_results (some msg) es =
      role_event msg.role (openai_extract_text is_space include_tool_results msg) es

  unfoldable pub events : Bool → List (Node Message) → List Event
  events include_tool_results [] = []
  events include_tool_results (node ∷ chain) =
      message_event include_tool_results node.message (events include_tool_results chain)

  -- The documents of the exchanges; one of less than 100 characters has none, and no number.
  unfoldable pub exchange_documents : ℕ → ℕ → List Exchange → Option (List Document)
  unfolding documents_of
  exchange_documents chunk_size turn [] = some []
  exchange_documents chunk_size turn ((u, ps) ∷ gs) =
      let user_text : List ℕ = strip is_space (or_empty u) in
      let asst_text : List ℕ = assistant_text is_space ps in
      let others = exchange_documents chunk_size turn gs in
      let numbered =
        turn_then turn
          (chunk_text is_space chunk_size (join_parts (sections_of user_text asst_text)))
          (exchange_documents chunk_size (turn + 1) gs) in
      if ltb (length user_text + length asst_text) 100 then others else numbered
