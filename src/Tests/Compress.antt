-- ===== src/Tests/Compress.antt =====
-- pkg/memory/dag/compress.go at a short conversation.
use dragonscale.Prelude.{ℕ, ◌≡◌, refl, List, [], ◌∷◌, length, arith}
use dragonscale.Prelude.Int.{pos, negsuc}
use dragonscale.Prelude.Text.{join_by, codes}
use dragonscale.Memory.Compress.{
  Message, CompressorConfig, SummaryNode, Dag, NodeId, chunk_id, section_id, session_id, trim_left,
  trim_right, cut_sentence, sentences_of, shorten, extract_sentences, summary_parts,
  extract_chunk_summary, summary_of, chunk_of, build_chunks, sections_from, build_sections,
  add_roots, compress, add_node, add_nodes, Compression, built, panics, endless,
}
use dragonscale.Memory.Compress.Tree.{IsTree, compress-IsTree}

program : Unit {0}
unfolding trim_left trim_right join_by cut_sentence sentences_of shorten extract_sentences
    summary_parts extract_chunk_summary summary_of chunk_of build_chunks sections_from
    build_sections add_roots compress add_node add_nodes
program = tt

first_two : extract_sentences (codes " One. Two!  Three") 2 ≡ codes "One. Two!"
unfolding program
first_two = refl

paragraph : extract_sentences (codes "Title\n\nBody.") 1 ≡ codes "Title"
unfolding program
paragraph = refl

abbrev small : CompressorConfig
small = record { chunk_size = pos 2; section_size = pos 2; max_sentences = pos 1 }

abbrev hello : Message
hello = record { role = codes "user"; content = codes "Hi. Bye." }

abbrev blank : Message
blank = record { role = codes "tool"; content = codes "  " }

chunk_text : extract_chunk_summary (hello ∷ blank ∷ hello ∷ []) ≡ codes "user: Hi. | user: Hi."
unfolding program
chunk_text = refl

abbrev talk : List Message
talk = hello ∷ hello ∷ blank ∷ hello ∷ hello ∷ []

abbrev spans : List SummaryNode → List (NodeId × ℕ × ℕ × List NodeId)
spans [] = []
spans (n ∷ ns) = (n.id, n.start_idx, n.end_idx, n.children) ∷ spans ns

abbrev spans_of : Compression → List (NodeId × ℕ × ℕ × List NodeId)
spans_of (built dag last) = spans dag.nodes
spans_of _ = []

talk_spans :
    spans_of (compress length small 0 talk)
    ≡ (chunk_id 1, 0, 2, [])
      ∷ (chunk_id 2, 2, 4, [])
      ∷ (chunk_id 3, 4, 5, [])
      ∷ (section_id 4, 0, 4, chunk_id 1 ∷ chunk_id 2 ∷ [])
      ∷ (section_id 5, 4, 5, chunk_id 3 ∷ [])
      ∷ (session_id 6, 0, 5, section_id 4 ∷ section_id 5 ∷ [])
      ∷ []
unfolding program
talk_spans = refl

-- A chunk size of 0 makes no progress; a section size of 0 has an empty first group, and a negative
-- size no slice.
never_ends : compress length (record small { chunk_size = pos 0 }) 0 talk ≡ endless
unfolding program
never_ends = refl

empty_group : compress length (record small { section_size = pos 0 }) 0 talk ≡ panics
unfolding program
empty_group = refl

negative_chunk : compress length (record small { chunk_size = negsuc 0 }) 0 talk ≡ panics
unfolding program
negative_chunk = refl

compress-IsTree_example :
    (dag : Dag) × (last : ℕ) × (compress length small 0 talk ≡ built dag last)
    × IsTree small (length talk) dag
compress-IsTree_example =
    compress-IsTree length small 0 talk (omega arith) (omega arith)
      (λ e. absurd (ground (arith, e)))
