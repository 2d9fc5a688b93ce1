-- ===== src/Memory/Compress.antt =====
-- The compressor of pkg/memory/dag/compress.go, with the nodes of node.go. A text is its code points.
-- A size that is negative, or a section size of 0, panics in the first group of a loop, and a chunk
-- size of 0 makes its loop run for ever. The tokenizer is a parameter.
pub mod Ids
pub mod Tiles
pub mod Tree
use dragonscale.Prelude.{
  ℕ, zero, suc, ◌+◌, Bool, true, false, ◌&&◌, ◌||◌, List, [], ◌∷◌, ◌++◌, Option, none, some, length,
  take, drop, leb, ◌==◌, if◌then◌else◌,
}
use dragonscale.Prelude.Int.{ℤ, pos, pos_part, ltb_ℤ}
use dragonscale.Prelude.Text.{codes, is_space, join_by}
use dragonscale.Memory.Budget.{Level, level_chunk, level_section, level_session}

pub record Message : Type 0 where
  pub role : List ℕ
  pub content : List ℕ

pub record CompressorConfig : Type 0 where
  pub chunk_size : ℤ
  pub section_size : ℤ
  pub max_sentences : ℤ

abbrev pub default_compressor_config : CompressorConfig
default_compressor_config = record {
  chunk_size = pos 8;
  section_size = pos 4;
  max_sentences = pos 2;
}

-- `nextID`: a prefix and the counter.
pub data NodeId : Type 0 where
  chunk_id section_id session_id : ℕ → NodeId

-- `Node`.
pub record SummaryNode : Type 0 where
  pub id : NodeId
  pub level : Level
  pub summary : List ℕ
  pub tokens : ℕ
  pub start_idx : ℕ
  pub end_idx : ℕ
  pub children : List NodeId

abbrev pub same_id : NodeId → NodeId → Bool
same_id (chunk_id a) (chunk_id b) = a == b
same_id (section_id a) (section_id b) = a == b
same_id (session_id a) (session_id b) = a == b
same_id _ _ = false

-- `DAG`: the map of its nodes by id, in the order in which the ids are added.
pub record Dag : Type 0 where
  pub nodes : List SummaryNode
  pub roots : List NodeId

-- `Add`: the node of the same id is overwritten.
unfoldable pub add_node : SummaryNode → List SummaryNode → List SummaryNode
add_node n [] = n ∷ []
add_node n (m ∷ ms) = let rest = add_node n ms in if same_id m.id n.id then n ∷ ms else m ∷ rest

unfoldable pub add_nodes : List SummaryNode → List SummaryNode → List SummaryNode
add_nodes [] nodes = nodes
add_nodes (n ∷ ns) nodes = add_nodes ns (add_node n nodes)

-- What becomes of a compression: the graph and the counter, a panic, or a loop that never ends.
pub data Compression : Type 0 where
  built : Dag → ℕ → Compression
  panics endless : Compression

-- `strings.TrimSpace`.
unfoldable pub trim_left : List ℕ → List ℕ
trim_left [] = []
trim_left (c ∷ cs) = let rest = trim_left cs in if is_space c then rest else c ∷ cs

unfoldable pub trim_right : List ℕ → List ℕ
trim_right [] = []
trim_right (c ∷ cs) = elim (trim_right cs) [
  | [] ↦ if is_space c then [] else c ∷ []
  | d ∷ ds ↦ c ∷ d ∷ ds
]

abbrev pub trim_space : List ℕ → List ℕ
trim_space s = trim_right (trim_left s)

abbrev pub starts_newline : List ℕ → Bool
starts_newline [] = false
starts_newline (c ∷ cs) = c == 10

-- `findSentenceEnd`: the text up to the end of its first sentence, and what is behind it.
unfoldable pub cut_sentence : List ℕ → Option (List ℕ × List ℕ)
cut_sentence [] = none
cut_sentence (c ∷ cs) =
    let later = cut_sentence cs in
    if c == b'.' || c == b'!' || c == b'?' || (c == 10 && starts_newline cs)
    then some (c ∷ [], cs)
    else elim later [ none ↦ none | some (sentence, rest) ↦ some (c ∷ sentence, rest) ]

-- The loop of `extractSentences`.
unfoldable pub sentences_of : ℕ → List ℕ → List (List ℕ)
sentences_of zero s = []
sentences_of (suc n) [] = []
sentences_of (suc n) (c ∷ cs) = elim (cut_sentence (c ∷ cs)) [
  | none ↦ trim_space (c ∷ cs) ∷ []
  | some (sentence, rest) ↦ elim (trim_space sentence) [
    | [] ↦ sentences_of n (trim_space rest)
    | d ∷ ds ↦ (d ∷ ds) ∷ sentences_of n (trim_space rest)
  ]
]

unfoldable pub shorten : List ℕ → List ℕ
shorten s = if leb (length s) 200 then s else take 200 s ++ codes "..."

-- `extractSentences`. With no sentence to take, or no text, the loop finds none either.
unfoldable pub extract_sentences : List ℕ → ℕ → List ℕ
extract_sentences text n = shorten (join_by (codes " ") (sentences_of n (trim_space text)))

unfoldable pub summary_parts : List Message → List (List ℕ)
summary_parts [] = []
summary_parts (m ∷ ms) = elim (extract_sentences m.content 1) [
  | [] ↦ summary_parts ms
  | c ∷ cs ↦ (m.role ++ (codes ": " ++ (c ∷ cs))) ∷ summary_parts ms
]

-- `extractChunkSummary`.
unfoldable pub extract_chunk_summary : List Message → List ℕ
extract_chunk_summary ms = join_by (codes " | ") (summary_parts ms)

abbrev pub ids_of : List SummaryNode → List NodeId
ids_of [] = []
ids_of (n ∷ ns) = n.id ∷ ids_of ns

abbrev pub summaries_of : List SummaryNode → List (List ℕ)
summaries_of [] = []
summaries_of (n ∷ ns) = n.summary ∷ summaries_of ns

-- `EndIdx` of the last node, where there is one behind the given one.
abbrev pub last_end : SummaryNode → List SummaryNode → ℕ
last_end n [] = n.end_idx
last_end n (m ∷ ms) = last_end m ms

module _ (estimate_tokens : List ℕ → ℕ) (cfg : CompressorConfig) where
  -- The node that `buildSections` and `buildSessionSummary` make of nodes.
  unfoldable pub summary_of : NodeId → Level → SummaryNode → List SummaryNode → SummaryNode
  summary_of id level n ns =
      let text =
        extract_sentences (join_by (codes " ") (summaries_of (n ∷ ns)))
          (pos_part cfg.max_sentences) in
      record {
        id = id;
        level = level;
        summary = text;
        tokens = estimate_tokens text;
        start_idx = n.start_idx;
        end_idx = last_end n ns;
        children = ids_of (n ∷ ns);
      }

  unfoldable pub chunk_of : ℕ → ℕ → List Message → SummaryNode
  chunk_of number start ms = record {
    id = chunk_id number;
    level = level_chunk;
    summary = extract_chunk_summary ms;
    tokens = estimate_tokens (extract_chunk_summary ms);
    start_idx = start;
    end_idx = start + length ms;
    children = [];
  }

  -- `buildChunks` from an index on, on fuel, with a size that is not negative: the nodes and the
  -- counter.
  unfoldable pub build_chunks : ℕ → ℕ → ℕ → List Message → Option (List SummaryNode × ℕ)
  build_chunks fuel start counter [] = some ([], counter)
  build_chunks zero start counter (m ∷ ms) = none
  build_chunks (suc fuel) start counter (m ∷ ms) =
      let chunk = chunk_of (suc counter) start (take (pos_part cfg.chunk_size) (m ∷ ms)) in
      elim (build_chunks fuel (start + pos_part cfg.chunk_size) (suc counter)
        (drop (pos_part cfg.chunk_size) (m ∷ ms))) [
          | none ↦ none
          | some (chunks, last) ↦ some (chunk ∷ chunks, last)
        ]

  -- The loop of `buildSections`. None is a panic: of a slice up to a negative index, or of the first
  -- element of a group that is empty.
  unfoldable pub sections_from : ℕ → ℕ → List SummaryNode → Option (List SummaryNode × ℕ)
  sections_from fuel counter [] = some ([], counter)
  sections_from zero counter (n ∷ ns) = none
  sections_from (suc fuel) counter (n ∷ ns) = elim (take (pos_part cfg.section_size) (n ∷ ns)) [
    | [] ↦ none
    | g ∷ gs ↦ elim (sections_from fuel (suc counter) (drop (pos_part cfg.section_size) (n ∷ ns))) [
      | none ↦ none
      | some (sections, last) ↦
          some (summary_of (section_id (suc counter)) level_section g gs ∷ sections, last)
    ]
  ]

  -- `buildSections`, with the nodes that it adds.
  unfoldable pub build_sections :
      ℕ → List SummaryNode → Option (List SummaryNode × List SummaryNode × ℕ)
  build_sections counter chunks =
      if ltb_ℤ cfg.section_size (pos (length chunks))
      then elim (sections_from (length chunks) counter chunks) [
        | none ↦ none
        | some (sections, last) ↦ some (sections, sections, last)
      ]
      else some (chunks, [], counter)

  -- The roots, and the counter.
  unfoldable pub add_roots : List SummaryNode → List SummaryNode → ℕ → Dag × ℕ
  add_roots nodes [] counter = (record { nodes = nodes; roots = ids_of nodes }, counter)
  add_roots nodes (s ∷ []) counter = (record { nodes = nodes; roots = s.id ∷ [] }, counter)
  add_roots nodes (s ∷ t ∷ rest) counter =
      let session = summary_of (session_id (suc counter)) level_session s (t ∷ rest) in
      (record { nodes = add_node session nodes; roots = session.id ∷ [] }, suc counter)

  -- `Compress`, at a counter.
  unfoldable pub compress : ℕ → List Message → Compression
  compress counter [] = built (record { nodes = []; roots = [] }) counter
  compress counter (m ∷ ms) =
      if ltb_ℤ cfg.chunk_size (pos 0)
      then panics
      else elim (build_chunks (length (m ∷ ms)) 0 counter (m ∷ ms)) [
        | none ↦ endless
        | some (chunks, next) ↦ elim (build_sections next chunks) [
          | none ↦ panics
          | some (sections, added, last) ↦
              let (dag, end) = add_roots (add_nodes (chunks ++ added) []) sections last in
              built dag end
        ]
      ]
