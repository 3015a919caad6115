-- ===== src/Ingest/Turns.antt =====
-- gaottt/ingest/loader.py, `_ingest_openai_conversation`: the exchanges of a conversation, one
-- document for each chunk of each. Of a document's metadata the turn and the place among the chunks
-- of the turn are modelled; the rest is the same in all documents of a conversation.
pub mod Grouping
pub mod Exchanges
use ga_ottt.Base.{
  ℕ, zero, suc, ◌+◌, Bool, true, false, ◌&&◌, ◌||◌, not, Option, none, some, List, [], ◌∷◌, ◌++◌,
  if◌then◌else◌, length, ltb, keep,
}
use ga_ottt.Dict.{Dict}
use ga_ottt.Ingest.Text.{is_empty, strip, newline, blank_line}
use ga_ottt.Ingest.{chunk_text}
use ga_ottt.Ingest.ActivePath.{Node, walk_active_path}
use ga_ottt.Ingest.Messages.{
  Role, user, assistant, tool, Message, codes, join_parts, openai_extract_text,
}

-- `chunk` is the index of the chunk and their number, where there is more than one.
pub record Document : Type 0 where
  pub content : List ℕ
  pub turn : ℕ
  pub chunk : Option (ℕ × ℕ)

-- The variables of `_ingest_openai_conversation` that `flush` and the loop share.
pub record Turns : Type 0 where
  pub turn_index : ℕ
  pub cur_user : Option (List ℕ)
  pub cur_asst_parts : List (List ℕ)
  pub documents : List Document

abbrev pub or_empty : Option (List ℕ) → List ℕ
or_empty none = []
or_empty (some t) = t

-- `if user_text: parts.append(f"## User\n{user_text}")`, and so for the assistant
unfoldable pub sections_of : List ℕ → List ℕ → List (List ℕ)
sections_of user_text asst_text =
    (if is_empty user_text then [] else (codes "## User" ++ (newline ∷ user_text)) ∷ [])
    ++ (if is_empty asst_text then [] else (codes "## Assistant" ++ (newline ∷ asst_text)) ∷ [])

-- The loop over the chunks from index `i` on; `total` is `len(chunks)`.
unfoldable pub documents_of : ℕ → ℕ → ℕ → List (List ℕ) → List Document
documents_of turn total i [] = []
documents_of turn total i (chunk ∷ chunks) =
    record { content = chunk; turn = turn; chunk = if ltb 1 total then some (i, total) else none }
    ∷ documents_of turn total (suc i) chunks

unfoldable pub reset_turn : Turns → Turns
reset_turn s = record s { cur_user = none; cur_asst_parts = [] }

-- The chunks of the body, when there are: the documents, the next turn, and the reset.
unfoldable pub emit : Turns → Option (List (List ℕ)) → Option Turns
unfolding documents_of reset_turn
emit s none = none
emit s (some chunks) = some (
    reset_turn (record s {
      documents = s.documents ++ documents_of s.turn_index (length chunks) 0 chunks;
      turn_index = s.turn_index + 1;
    }))

-- `cur_user is not None or cur_asst_parts`
unfoldable pub started : Option (List ℕ) → List (List ℕ) → Bool
started none [] = false
started none (p ∷ ps) = true
started (some u) ps = true

-- `cur_user = text`
unfoldable pub begin : List ℕ → Option Turns → Option Turns
begin text none = none
begin text (some s) = some (record s { cur_user = some text })

abbrev pub documents_after : Option Turns → Option (List Document)
documents_after none = none
documents_after (some s) = some s.documents

abbrev pub no_turns : Turns
no_turns = record { turn_index = 0; cur_user = none; cur_asst_parts = []; documents = [] }

module _ (is_space : ℕ → Bool) where
  -- `"\n\n".join(p for p in cur_asst_parts if p).strip()`
  unfoldable pub assistant_text : List (List ℕ) → List ℕ
  unfolding join_parts
  assistant_text parts = strip is_space (join_parts (keep (λ p. not (is_empty p)) parts))

module _ (is_space : ℕ → Bool) (chunk_size : ℕ) where
  -- `none` where the splitting does not end.
  unfoldable pub flush : Turns → Option Turns
  unfolding sections_of emit reset_turn assistant_text
  flush s =
      let user_text : List ℕ = strip is_space (or_empty s.cur_user) in
      let asst_text : List ℕ = assistant_text is_space s.cur_asst_parts in
      if is_empty user_text && is_empty asst_text
      then some (reset_turn s)
      else if ltb (length user_text + length asst_text) 100
      then some (reset_turn s)
      else emit s (chunk_text is_space chunk_size (join_parts (sections_of user_text asst_text)))

  unfoldable pub flush_open : Turns → Option Turns
  unfolding flush started
  flush_open s = if started s.cur_user s.cur_asst_parts then flush s else some s

  -- One pass of the loop, on the role of the message and its text.
  unfoldable pub take_text : Role → List ℕ → Turns → Option Turns
  unfolding flush_open begin
  take_text user text s = if is_empty text then some s else begin text (flush_open s)
  take_text assistant text s =
      some
        (if is_empty text then s else record s { cur_asst_parts = s.cur_asst_parts ++ text ∷ [] })
  take_text tool text s =
      some
        (if is_empty text then s else record s { cur_asst_parts = s.cur_asst_parts ++ text ∷ [] })
  take_text _ text s = some s

  unfoldable pub take_message : Bool → Option Message → Turns → Option Turns
  unfolding take_text
  take_message include_tool_results none s = some s
  take_message include_tool_results (some msg) s =
      take_text msg.role (openai_extract_text is_space include_tool_results msg) s

  -- The loop over the chain, and the flush after it.
  unfoldable pub take_chain : Bool → List (Node Message) → Option Turns → Option Turns
  unfolding take_message flush_open
  take_chain include_tool_results chain none = none
  take_chain include_tool_results [] (some s) = flush_open s
  take_chain include_tool_results (node ∷ chain) (some s) =
      take_chain include_tool_results chain (take_message include_tool_results node.message s)

  unfoldable pub ingest_chain : Bool → Option (List (Node Message)) → Option (List Document)
  unfolding take_chain
  ingest_chain include_tool_results none = none
  ingest_chain include_tool_results (some chain) =
      documents_after (take_chain include_tool_results chain (some no_turns))

  unfoldable pub ingest_openai_conversation :
      Bool → Dict ℕ (Node Message) → Option ℕ → Option (List Document)
  unfolding ingest_chain walk_active_path
  ingest_openai_conversation include_tool_results mapping current_node =
      ingest_chain include_tool_results (walk_active_path mapping current_node)
