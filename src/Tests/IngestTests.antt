-- ===== src/Tests/IngestTests.antt =====
-- Examples of the ingestion of documents.
use ga_ottt.Base.{
  ℕ, ◌≤◌, ◌≡◌, ◌⊎◌, refl, inr, Bool, true, false, ◌||◌, none, some, List, [], ◌∷◌, ◌++◌, arith,
  length, map, ◌==◌, All, ℕ_discrete,
}
use mathlib.Core.List.{reverse}
use ga_ottt.Dict.{Dict, has, lookup}
use ga_ottt.Ingest.Text.{strip, lstrip, rstrip, rfind, half, split_blank, split_after, ink, ink_all}
use ga_ottt.Ingest.{hard_split, hard_split_rounds, cut_at, after_rfind, then_rest, chunk_text}
use ga_ottt.Ingest.Cuts.{Fits}
use ga_ottt.Ingest.Bounds.{chunk_text_bounds}
use ga_ottt.Ingest.Content.{chunk_text_content}
use ga_ottt.Ingest.Repeats.{chunk_text_repeats}
use ga_ottt.Ingest.ActivePath.{Node, walk_active_path}
use ga_ottt.Ingest.ActivePath.Walk.{walk_active_path_lem}
use ga_ottt.Ingest.Messages.{codes, Message, Role, Part}
use ga_ottt.Ingest.Turns.{ingest_openai_conversation}
use ga_ottt.Ingest.Turns.Grouping.{events, exchanges, exchange_documents}
use ga_ottt.Ingest.Turns.Exchanges.{ingest_openai_conversation_lem}

abbrev ascii_space : ℕ → Bool
ascii_space c = c == 32 || c == 10

abbrev letters : List ℕ
letters = codes "bbbb. bbbb bb"

abbrev two_paragraphs : List ℕ
two_paragraphs = codes "aa" ++ (10 ∷ 10 ∷ letters)

abbrev short_paragraphs : List ℕ
short_paragraphs = codes "aa a" ++ (10 ∷ 10 ∷ 10 ∷ codes "bb b") ++ (10 ∷ codes "c")

letters_split :
    hard_split ascii_space 6 letters ≡ some (codes "bbbb." ∷ codes "bbbb b" ∷ codes "b" ∷ [])
unfolding hard_split hard_split_rounds cut_at after_rfind then_rest rfind half strip lstrip rstrip
letters_split = refl

chunk_text_bounds_example :
    (chunks : List (List ℕ)) × (chunk_text ascii_space 6 two_paragraphs ≡ some chunks)
    × Fits 6 chunks
chunk_text_bounds_example = chunk_text_bounds ascii_space 6 two_paragraphs (omega arith)

short_enough :
    (length (split_blank (strip ascii_space short_paragraphs)) ≤ 1)
    ⊎ All
        (λ part. length (strip ascii_space part) ≤ 6)
        (split_blank (strip ascii_space short_paragraphs))
unfolding split_blank split_after strip lstrip rstrip
short_enough = inr (omega arith)

chunk_text_content_example :
    (chunks : List (List ℕ)) × (chunk_text ascii_space 6 short_paragraphs ≡ some chunks)
    × (ink_all ascii_space chunks ≡ ink ascii_space short_paragraphs)
chunk_text_content_example =
    chunk_text_content ascii_space refl 6 short_paragraphs (omega arith) short_enough

paragraphs_split : split_blank (strip ascii_space two_paragraphs) ≡ codes "aa" ∷ letters ∷ []
unfolding split_blank split_after strip lstrip rstrip
paragraphs_split = refl

chunk_text_repeats_example :
    chunk_text ascii_space 6 two_paragraphs
    ≡ some (
        strip ascii_space (codes "aa") ∷ (codes "bbbb." ∷ codes "bbbb b" ∷ codes "b" ∷ [])
        ++ strip ascii_space (codes "aa") ∷ [])
unfolding strip lstrip rstrip
chunk_text_repeats_example =
    chunk_text_repeats ascii_space 6 two_paragraphs (codes "aa") letters
      (codes "bbbb." ∷ codes "bbbb b" ∷ codes "b" ∷ []) (omega arith) paragraphs_split (omega arith)
      (omega arith) letters_split (omega arith)

abbrev talk : Role → List ℕ → Message
talk role text = record {
  role = role;
  tool_name = none;
  hidden = false;
  kept = true;
  parts = Part.string text ∷ [];
}

abbrev asked : Node Message
asked = record {
  parent = none;
  message = some (
      talk Role.user
        (codes "Where is the lease kept, and who may take it over when its owner is gone?"));
}

abbrev answered : Node Message
answered = record {
  parent = some 1;
  message = some (
      talk Role.assistant
        (codes "In the directory of the universe; the next process that finds it stale."));
}

abbrev conversation : Dict ℕ (Node Message)
conversation = (1, asked) ∷ (2, answered) ∷ []

walk_active_path_lem_example :
    walk_active_path conversation (some 2)
    ≡ some (reverse (map (λ (s : ℕ × Node Message). s.1) ((2, answered) ∷ (1, asked) ∷ [])))
unfolding lookup has ℕ_discrete
walk_active_path_lem_example =
    walk_active_path_lem conversation (some 2) ((2, answered) ∷ (1, asked) ∷ [])
      (refl, refl, (refl, refl, tt)) (refl, (refl, tt))

ingest_openai_conversation_lem_example :
    (chain : List (Node Message)) × (walk_active_path conversation (some 2) ≡ some chain)
    × (ingest_openai_conversation ascii_space 2000 false conversation (some 2)
        ≡ exchange_documents ascii_space 2000 0 (exchanges (events ascii_space false chain)))
ingest_openai_conversation_lem_example =
    ingest_openai_conversation_lem ascii_space 2000 false conversation (some 2)
