-- ===== src/Ingest/Turns/Exchanges.antt =====
-- The loop over a conversation gives the documents of its exchanges.
use mathlib.Core.List.{append_assoc, append-nil}
use ga_ottt.Base.{
  ℕ, ◌+◌, ◌≡◌, refl, sym, ap, ◌∙◌, Bool, true, false, ◌&&◌, Option, none, some, List, [], ◌∷◌, ◌++◌,
  arith, inl, inr, if◌then◌else◌, length, ltb, Bool-cases,
}
use ga_ottt.Dict.{Dict}
use ga_ottt.Ingest.Text.{is_empty, strip}
use ga_ottt.Ingest.{chunk_text}
use ga_ottt.Ingest.ActivePath.{Node, walk_active_path}
use ga_ottt.Ingest.ActivePath.Walk.{walk_active_path_total}
use ga_ottt.Ingest.Messages.{Role, Message, join_parts, openai_extract_text}
use ga_ottt.Ingest.Turns.{
  Document, Turns, or_empty, sections_of, reset_turn, emit, started, begin, assistant_text, flush,
  flush_open, take_text, take_message, take_chain, documents_after, no_turns, ingest_chain,
  ingest_openai_conversation,
}
use ga_ottt.Ingest.Turns.Grouping.{
  Event, prompt, answer, role_event, Exchange, grouped, with_first, exchanges, prefixed, turn_then,
  events, message_event, exchange_documents,
}

prefixed-append :
    (a b : List Document) (r : Option (List Document))
    → prefixed (a ++ b) r ≡ prefixed a (prefixed b r)
prefixed-append a b none = refl
prefixed-append a b (some es) = ap some (append_assoc a b es)

prefixed_nil : (r : Option (List Document)) → prefixed [] r ≡ r
prefixed_nil none = refl
prefixed_nil (some es) = refl

module _ (is_space : ℕ → Bool) (chunk_size : ℕ) where
  -- The documents so far, before those of the exchanges to come.
  abbrev followed : Option Turns → List Exchange → Option (List Document)
  followed none gs = none
  followed (some s) gs =
      prefixed s.documents (exchange_documents is_space chunk_size s.turn_index gs)

  emit-followed :
      (s : Turns) (chunks : Option (List (List ℕ))) (gs : List Exchange)
      → followed (emit s chunks) gs
        ≡ prefixed s.documents (
            turn_then s.turn_index chunks
              (exchange_documents is_space chunk_size (s.turn_index + 1) gs))
  unfolding emit reset_turn
  emit-followed s none gs = refl
  emit-followed s (some chunks) gs = prefixed-append s.documents _ _

  flush-followed :
      (s : Turns) (gs : List Exchange)
      → followed (flush is_space chunk_size s) gs
        ≡ prefixed s.documents (
            exchange_documents is_space chunk_size s.turn_index
              ((s.cur_user, s.cur_asst_parts) ∷ gs))
  unfolding flush exchange_documents
  flush-followed s gs =
      by (is_empty ut && is_empty at) (ltb (length ut + length at) 100) (short ut at)
    where
      ut : List ℕ
      ut = strip is_space (or_empty s.cur_user)

      at : List ℕ
      at = assistant_text is_space s.cur_asst_parts

      chunks : Option (List (List ℕ))
      chunks = chunk_text is_space chunk_size (join_parts (sections_of ut at))

      short :
          (a b : List ℕ) → is_empty a && is_empty b ≡ true → ltb (length a + length b) 100 ≡ true
      short [] [] h = refl
      short [] (c ∷ b) h = cc
      short (c ∷ a) b h = cc

      by :
          (nothing few : Bool)
          → (nothing ≡ true → few ≡ true)
          → followed
              (if nothing
                then some (reset_turn s)
                else if few
                then some (reset_turn s)
                else emit s chunks)
              gs
            ≡ prefixed s.documents (
                if few
                then exchange_documents is_space chunk_size s.turn_index gs
                else turn_then s.turn_index chunks
                    (exchange_documents is_space chunk_size (s.turn_index + 1) gs))
      by true few h = rw (h refl) (unfold reset_turn in refl)
      by false true h = unfold reset_turn in refl
      by false false h = emit-followed s chunks gs

  -- A flush leaves no exchange open.
  abbrev Closed : Option Turns → Type 0
  Closed none = Unit
  Closed (some s) = (s.cur_user ≡ none) × (s.cur_asst_parts ≡ [])

  emit-Closed : (s : Turns) (chunks : Option (List (List ℕ))) → Closed (emit s chunks)
  unfolding emit reset_turn
  emit-Closed s none = tt
  emit-Closed s (some chunks) = (refl, refl)

  flush-Closed : (s : Turns) → Closed (flush is_space chunk_size s)
  unfolding flush reset_turn
  flush-Closed s = ground (
    arith,
    emit-Closed s (
        chunk_text is_space chunk_size (
          join_parts (
            sections_of (strip is_space (or_empty s.cur_user))
              (assistant_text is_space s.cur_asst_parts)))),
  )

  -- What the exchange that is open becomes, with the answers still to come.
  abbrev pending : Option Turns → List Event → Option (List Document)
  pending none es = none
  pending (some s) es =
      followed (some s) (with_first s.cur_user (s.cur_asst_parts ++ (grouped es).0) (grouped es).1)

  documents_after-followed : (r : Option Turns) → documents_after r ≡ followed r []
  unfolding exchange_documents
  documents_after-followed none = refl
  documents_after-followed (some s) = ap some (sym (append-nil s.documents))

  flush_open-followed :
      (s : Turns) (gs : List Exchange)
      → followed (flush_open is_space chunk_size s) gs
        ≡ followed (some s) (with_first s.cur_user s.cur_asst_parts gs)
  unfolding flush_open
  flush_open-followed s gs = elim (Bool-cases (started s.cur_user s.cur_asst_parts)) [
    | inl open_turn ↦ rw open_turn (flush-followed s gs)
    | inr closed ↦ rw closed refl
  ]

  flush_open-Closed : (s : Turns) → Closed (flush_open is_space chunk_size s)
  unfolding flush_open
  flush_open-Closed s = by s.cur_user s.cur_asst_parts refl refl
    where
      by :
          (u : Option (List ℕ)) (ps : List (List ℕ))
          → s.cur_user ≡ u
          → s.cur_asst_parts ≡ ps
          → Closed (if started u ps then flush is_space chunk_size s else some s)
      by none [] eu ep = (eu, ep)
      by none (p ∷ ps) eu ep = flush-Closed s
      by (some u) ps eu ep = flush-Closed s

  flush_open-pending :
      (s : Turns) → documents_after (flush_open is_space chunk_size s) ≡ pending (some s) []
  unfolding grouped
  flush_open-pending s =
      documents_after-followed (flush_open is_space chunk_size s)
      ∙ flush_open-followed s []
      ∙ ap (λ ps. followed (some s) (with_first s.cur_user ps []))
          (sym (append-nil s.cur_asst_parts))

  begin-pending :
      (text : List ℕ) (r : Option Turns) (es : List Event)
      → Closed r
      → pending (begin text r) es ≡ followed r ((some text, (grouped es).0) ∷ (grouped es).1)
  unfolding begin started
  begin-pending text none es c = refl
  begin-pending text (some s) es (u, ps) =
      ap (λ qs. followed (some s) ((some text, qs ++ (grouped es).0) ∷ (grouped es).1)) ps

  prompt-pending :
      (s : Turns) (text : List ℕ) (es : List Event)
      → pending (begin text (flush_open is_space chunk_size s)) es
        ≡ pending (some s) (prompt text ∷ es)
  unfolding grouped
  prompt-pending s text es =
      begin-pending text (flush_open is_space chunk_size s) es (flush_open-Closed s)
      ∙ flush_open-followed s ((some text, (grouped es).0) ∷ (grouped es).1)
      ∙ ap
          (λ ps.
            followed (some s)
              (with_first s.cur_user ps ((some text, (grouped es).0) ∷ (grouped es).1)))
          (sym (append-nil s.cur_asst_parts))

  answer-pending :
      (s : Turns) (text : List ℕ) (es : List Event)
      → pending (some (record s { cur_asst_parts = s.cur_asst_parts ++ text ∷ [] })) es
        ≡ pending (some s) (answer text ∷ es)
  unfolding grouped
  answer-pending s text es =
      ap (λ ps. followed (some s) (with_first s.cur_user ps (grouped es).1))
        (append_assoc s.cur_asst_parts (text ∷ []) (grouped es).0)

  take_text-pending :
      (role : Role) (text : List ℕ) (s : Turns) (es : List Event)
      → pending (take_text is_space chunk_size role text s) es
        ≡ pending (some s) (role_event role text es)
  unfolding take_text
  take_text-pending Role.user [] s es = refl
  take_text-pending Role.user (c ∷ cs) s es = prompt-pending s (c ∷ cs) es
  take_text-pending Role.assistant [] s es = refl
  take_text-pending Role.assistant (c ∷ cs) s es = answer-pending s (c ∷ cs) es
  take_text-pending Role.tool [] s es = refl
  take_text-pending Role.tool (c ∷ cs) s es = answer-pending s (c ∷ cs) es
  take_text-pending Role.system text s es = refl
  take_text-pending Role.other text s es = refl

  take_message-pending :
      (include_tool_results : Bool) (message : Option Message) (s : Turns) (es : List Event)
      → pending (take_message is_space chunk_size include_tool_results message s) es
        ≡ pending (some s) (message_event is_space include_tool_results message es)
  unfolding take_message
  take_message-pending include_tool_results none s es = refl
  take_message-pending include_tool_results (some msg) s es =
      take_text-pending msg.role (openai_extract_text is_space include_tool_results msg) s es

  take_chain-pending :
      (include_tool_results : Bool) (chain : List (Node Message)) (s : Option Turns)
      → documents_after (take_chain is_space chunk_size include_tool_results chain s)
        ≡ pending s (events is_space include_tool_results chain)
  unfolding take_chain events
  take_chain-pending include_tool_results [] none = refl
  take_chain-pending include_tool_results (node ∷ chain) none = refl
  take_chain-pending include_tool_results [] (some s) = flush_open-pending s
  take_chain-pending include_tool_results (node ∷ chain) (some s) =
      take_chain-pending include_tool_results chain
        (take_message is_space chunk_size include_tool_results node.message s)
      ∙ take_message-pending include_tool_results node.message s
          (events is_space include_tool_results chain)

  -- The walk from the current node ends on every mapping, and the documents of a conversation are
  -- those of its exchanges, which are read from the end of the walked messages: a prompt takes the
  -- answers up to the next prompt, answers before the first prompt are an exchange of their own,
  -- and an exchange of less than 100 characters has no documents and no number. Where the splitting
  -- of a body does not end, neither side has a result.
  pub ingest_openai_conversation_lem :
      (include_tool_results : Bool) (mapping : Dict ℕ (Node Message)) (current_node : Option ℕ)
      → (chain : List (Node Message)) × (walk_active_path mapping current_node ≡ some chain)
        × (ingest_openai_conversation is_space chunk_size include_tool_results mapping current_node
            ≡ exchange_documents is_space chunk_size 0
                (exchanges (events is_space include_tool_results chain)))
  unfolding ingest_openai_conversation ingest_chain exchanges
  ingest_openai_conversation_lem include_tool_results mapping current_node =
      let (chain, found) = walk_active_path_total mapping current_node in
      (
        chain,
        found,
        rw found (take_chain-pending include_tool_results chain (some no_turns) ∙ prefixed_nil _),
      )
