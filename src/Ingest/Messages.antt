-- ===== src/Ingest/Messages.antt =====
-- gaottt/ingest/loader.py, `_openai_extract_text`: the text of one message of an exported
-- conversation. A message is the fields that the code reads.
use Prim.Native.Char.{code}
use Prim.Native.String.{String}
use ga_ottt.Base.{
  ℕ, Bool, true, false, ◌&&◌, not, Option, none, some, List, [], ◌∷◌, ◌++◌, if◌then◌else◌, length,
  leb, take,
}
use ga_ottt.Ingest.Text.{is_empty, strip, newline, blank_line}

-- The code points of a text that the program writes.
abbrev pub codes : String → List ℕ
codes String.[] = []
codes (String.◌∷◌ c s) = code c ∷ codes s

pub data Role : Type 0 where
  user assistant tool system other : Role

-- A part of a content: a string, a dictionary with the strings at `text` and `transcript`, or
-- anything else.
pub data Part : Type 0 where
  string : List ℕ → Part
  fields : Option (List ℕ) → Option (List ℕ) → Part
  neither : Part

-- `tool_name` is none where the author has no name or an empty one; `kept` says that the content is
-- a dictionary of a type in `_OPENAI_KEEP_CONTENT_TYPES`.
pub record Message : Type 0 where
  pub role : Role
  pub tool_name : Option (List ℕ)
  pub hidden : Bool
  pub kept : Bool
  pub parts : List Part

-- `if role in ("system", "tool")`
unfoldable pub dropped : Bool → Role → Bool
dropped include_tool_results tool = not include_tool_results
dropped include_tool_results system = true
dropped include_tool_results _ = false

-- `"\n\n".join(pieces)`
unfoldable pub join_parts : List (List ℕ) → List ℕ
join_parts [] = []
join_parts (p ∷ []) = p
join_parts (p ∷ q ∷ ps) = p ++ (blank_line ++ join_parts (q ∷ ps))

-- `text if len(text) <= 400 else text[:397] + "..."`
unfoldable pub preview : List ℕ → List ℕ
preview text = if leb (length text) 400 then text else take 397 text ++ codes "..."

abbrev pub tool_label : Option (List ℕ) → List ℕ
tool_label none = codes "?"
tool_label (some name) = name

-- `f"[tool_result:{tool_name}]\n{preview}"`
unfoldable pub tool_result : Option (List ℕ) → List ℕ → List ℕ
unfolding preview
tool_result name text =
    codes "[tool_result:" ++ (tool_label name ++ (codes "]" ++ (newline ∷ preview text)))

module _ (is_space : ℕ → Bool) where
  -- `if t: pieces.append(t)`, of the stripped text
  abbrev pub add_piece : List ℕ → List (List ℕ) → List (List ℕ)
  add_piece t pieces = if is_empty t then pieces else t ∷ pieces

  -- The first of the two fields that is not blank.
  unfoldable pub add_fields : Option (List ℕ) → Option (List ℕ) → List (List ℕ) → List (List ℕ)
  add_fields none none pieces = pieces
  add_fields none (some transcript) pieces = add_piece (strip is_space transcript) pieces
  add_fields (some text) none pieces = add_piece (strip is_space text) pieces
  add_fields (some text) (some transcript) pieces =
      if is_empty (strip is_space text)
      then add_piece (strip is_space transcript) pieces
      else strip is_space text ∷ pieces

  unfoldable pub pieces_of : List Part → List (List ℕ)
  unfolding add_fields
  pieces_of [] = []
  pieces_of (string t ∷ parts) = add_piece (strip is_space t) (pieces_of parts)
  pieces_of (fields text transcript ∷ parts) = add_fields text transcript (pieces_of parts)
  pieces_of (neither ∷ parts) = pieces_of parts

  abbrev pub is_tool : Role → Bool
  is_tool tool = true
  is_tool _ = false

  unfoldable pub openai_extract_text : Bool → Message → List ℕ
  unfolding dropped join_parts tool_result pieces_of
  openai_extract_text include_tool_results msg =
      let text : List ℕ = strip is_space (join_parts (pieces_of msg.parts)) in
      if msg.hidden
      then []
      else if dropped include_tool_results msg.role
      then []
      else if not msg.kept
      then []
      else if is_tool msg.role && (not (is_empty text) && include_tool_results)
      then tool_result msg.tool_name text
      else text
