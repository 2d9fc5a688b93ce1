-- ===== src/Memory/Compress/Tree.antt =====
-- What `Compress` of pkg/memory/dag/compress.go builds.
use dragonscale.Prelude.{
  ℕ, suc, ◌<◌, ◌≡◌, ◌≢◌, ◌⊎◌, refl, subst, false, List, [], ◌∷◌, ◌++◌, some, length, arith,
  Bool-cases, inl, inr, Memᴰ, Mem-append, Mem-append_right,
}
use dragonscale.Memory.Compress.{
  Message, CompressorConfig, SummaryNode, Dag, ids_of, build_sections, add_roots, compress,
  summary_of, add_node, add_nodes, built, session_id,
}
use dragonscale.Memory.Budget.{level_session}
use dragonscale.Prelude.Int.{ℤ, pos, negsuc, pos_part, ltb_ℤ}
use dragonscale.Memory.Compress.Ids.{
  Numbered, DistinctIds, Numbered-append, Numbered-DistinctIds, add_node-append, add_nodes-append,
}
use dragonscale.Memory.Compress.Tiles.{
  Tiles, AllShort, Grouped, Grouped-Tiles, last_end-Tiles, build_chunks-Tiles,
  sections_from-Grouped,
}

-- The chunks stand for the messages in order, each for no more than the chunk size; the sections are
-- the chunks, or groups of them; the one root is the one section, or is over all of them, and stands
-- for every message; and the graph holds them all, under ids of which no two are the same.
pub record IsTree (cfg : CompressorConfig) (count : ℕ) (dag : Dag) : Type 0 where
  pub chunks : List SummaryNode
  pub sections : List SummaryNode
  pub root : SummaryNode
  pub chunks_tile : Tiles 0 chunks count
  pub chunks_short : AllShort (pos_part cfg.chunk_size) chunks
  pub sections_over : (sections ≡ chunks) ⊎ Grouped chunks sections
  pub sections_tile : Tiles 0 sections count
  pub root_over : (sections ≡ root ∷ []) ⊎ (root.children ≡ ids_of sections)
  pub root_start : root.start_idx ≡ 0
  pub root_end : root.end_idx ≡ count
  pub roots : dag.roots ≡ root.id ∷ []
  pub chunks_held : (n : SummaryNode) → Memᴰ n chunks → Memᴰ n dag.nodes
  pub sections_held : (n : SummaryNode) → Memᴰ n sections → Memᴰ n dag.nodes
  pub root_held : Memᴰ root dag.nodes
  pub distinct : DistinctIds dag.nodes

module _ (estimate_tokens : List ℕ → ℕ) (cfg : CompressorConfig) where
  -- The sections, and what is added for them.
  build_sections-Tiles :
      (counter count : ℕ) (chunks : List SummaryNode)
      → 0 < pos_part cfg.section_size
      → Tiles 0 chunks count
      → (sections added : List SummaryNode) × (last : ℕ) × (build_sections estimate_tokens cfg
            counter chunks
          ≡ some (sections, added, last))
        × ((sections ≡ chunks) ⊎ Grouped chunks sections)
        × Tiles 0 sections count
        × ((n : SummaryNode) → Memᴰ n sections → Memᴰ n (chunks ++ added))
        × Numbered counter added last
  unfolding build_sections
  build_sections-Tiles counter count chunks positive tiles =
      elim (Bool-cases (ltb_ℤ cfg.section_size (pos (length chunks)))) [
        | inr few ↦ (
          chunks,
          [],
          counter,
          rw (few, build_sections) refl,
          inl refl,
          tiles,
          λ n m. Mem-append chunks [] m,
          omega arith,
        )
        | inl many ↦
            let (sections, last, runs, grouped, numbered) =
              sections_from-Grouped estimate_tokens cfg (length chunks) counter chunks positive
                (omega arith) in
            (
              sections,
              sections,
              last,
              rw (many, runs, build_sections) refl,
              inr grouped,
              Grouped-Tiles 0 count chunks sections grouped tiles,
              λ n m. Mem-append_right chunks sections m,
              numbered,
            )
      ]

  add_roots-IsTree :
      (first counter count : ℕ) (chunks sections nodes : List SummaryNode)
      → 0 < count
      → Numbered first nodes counter
      → Tiles 0 chunks count
      → AllShort (pos_part cfg.chunk_size) chunks
      → ((sections ≡ chunks) ⊎ Grouped chunks sections)
      → Tiles 0 sections count
      → ((n : SummaryNode) → Memᴰ n chunks → Memᴰ n nodes)
      → ((n : SummaryNode) → Memᴰ n sections → Memᴰ n nodes)
      → IsTree cfg count (add_roots estimate_tokens cfg nodes sections counter).0
  unfolding add_roots summary_of
  add_roots-IsTree first counter count chunks [] nodes some_message num ct cs over st held
        held_too =
      absurd (omega (arith, st, some_message))
  add_roots-IsTree first counter count chunks (s ∷ []) nodes some_message num ct cs over st held
        held_too =
      record {
        chunks = chunks;
        sections = s ∷ [];
        root = s;
        chunks_tile = ct;
        chunks_short = cs;
        sections_over = over;
        sections_tile = st;
        root_over = inl refl;
        root_start = st.0;
        root_end = st.2;
        roots = refl;
        chunks_held = held;
        sections_held = held_too;
        root_held = held_too s (Memᴰ.head refl);
        distinct = Numbered-DistinctIds first counter nodes num;
      }
  add_roots-IsTree first counter count chunks (s ∷ t ∷ rest) nodes some_message num ct cs over st
        held held_too =
      let session =
        summary_of estimate_tokens cfg (session_id (suc counter)) level_session s (t ∷ rest) in
      let behind : Numbered counter (session ∷ []) (suc counter) = (omega arith, omega arith) in
      let added : add_node session nodes ≡ nodes ++ (session ∷ []) =
        add_node-append first counter session nodes num behind.0 in
      rw added (record {
        chunks = chunks;
        sections = s ∷ t ∷ rest;
        root = session;
        chunks_tile = ct;
        chunks_short = cs;
        sections_over = over;
        sections_tile = st;
        root_over = inr refl;
        root_start = st.0;
        root_end = last_end-Tiles 0 count s (t ∷ rest) st;
        roots = refl;
        chunks_held = λ n m. Mem-append nodes _ (held n m);
        sections_held = λ n m. Mem-append nodes _ (held_too n m);
        root_held = Mem-append_right nodes _ (Memᴰ.head refl);
        distinct =
            Numbered-DistinctIds first (suc counter) (nodes ++ (session ∷ []))
              (Numbered-append first counter (suc counter) nodes (session ∷ []) num behind);
      })

  not_negative : (size : ℤ) → 0 < pos_part size → ltb_ℤ size (pos 0) ≡ false
  not_negative (pos n) h = ground (arith, h)
  not_negative (negsuc n) h = absurd (omega (arith, h))

  -- With sizes that are positive, the compression of some messages ends, and gives a tree over them:
  -- the chunks stand for the messages in order, each for no more than the chunk size, the sections are
  -- the chunks or groups of them, the one root is the one section or over all of them and stands for
  -- every message, and the graph holds them all, under ids of which no two are the same.
  pub compress-IsTree :
      (counter : ℕ) (ms : List Message)
      → 0 < pos_part cfg.chunk_size
      → 0 < pos_part cfg.section_size
      → ms ≢ []
      → (dag : Dag) × (last : ℕ) × (compress estimate_tokens cfg counter ms ≡ built dag last)
        × IsTree cfg (length ms) dag
  unfolding compress
  compress-IsTree counter [] chunk section given = absurd (given refl)
  compress-IsTree counter (m ∷ ms) chunk section given =
      let (chunks, next, runs, tiles, short, numbered) =
        build_chunks-Tiles estimate_tokens cfg (length (m ∷ ms)) 0 counter (m ∷ ms) chunk
          (omega arith) in
      let all : Tiles 0 chunks (length (m ∷ ms)) = subst (Tiles 0 chunks) (omega arith) tiles in
      let (sections, added, last, builds, over, sections_tile, held, more) =
        build_sections-Tiles next (length (m ∷ ms)) chunks section all in
      let whole = Numbered-append counter next last chunks added numbered more in
      let nodes : add_nodes (chunks ++ added) [] ≡ chunks ++ added =
        add_nodes-append counter counter last (chunks ++ added) [] (omega arith) whole in
      let result = add_roots estimate_tokens cfg (chunks ++ added) sections last in
      (
        result.0,
        result.1,
        rw (not_negative cfg.chunk_size chunk, runs, builds, nodes, compress) refl,
        add_roots-IsTree counter last (length (m ∷ ms)) chunks sections (chunks ++ added)
            (omega arith) whole all short over sections_tile (λ n x. Mem-append chunks added x)
            held,
      )
