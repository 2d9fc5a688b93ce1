-- ===== src/Memory/Compress/Tiles.antt =====
-- The ranges of messages that the nodes of pkg/memory/dag/compress.go stand for.
use dragonscale.Prelude.{
  ℕ, zero, suc, ◌+◌, ◌≤◌, ◌<◌, ◌≡◌, refl, sym, ap, ◌∙◌, subst, List, [], ◌∷◌, ◌++◌, some, length,
  take, drop, take-append-drop, length-take, length-drop, dec_lt, drop_of_length-le, arith,
}
use dragonscale.Prelude.Int.{pos_part}
use dragonscale.Memory.Compress.Ids.{Numbered}
use dragonscale.Memory.Budget.{level_section}
use dragonscale.Memory.Compress.{
  Message, CompressorConfig, SummaryNode, section_id, ids_of, last_end, summary_of, chunk_of,
  build_chunks, sections_from,
}

-- The nodes stand one behind the other for the messages from the first index to the second, each for
-- one at least.
abbrev pub Tiles : ℕ → List SummaryNode → ℕ → Type 0
Tiles lo [] hi = lo ≡ hi
Tiles lo (n ∷ ns) hi = (n.start_idx ≡ lo) × (lo < n.end_idx) × Tiles n.end_idx ns hi

abbrev pub AllShort : ℕ → List SummaryNode → Type 0
AllShort size [] = Unit
AllShort size (n ∷ ns) = (n.end_idx ≤ n.start_idx + size) × AllShort size ns

take_first :
    {A : Type 0} (k : ℕ) (x : A) (xs : List A)
    → 0 < k
    → (ys : List A) × (take k (x ∷ xs) ≡ x ∷ ys) × (x ∷ xs ≡ x ∷ (ys ++ drop k (x ∷ xs)))
take_first zero x xs h = absurd (omega (arith, h))
take_first (suc k) x xs h = (take k xs, refl, ap (λ l. x ∷ l) (sym (take-append-drop k xs)))

pub last_end-Tiles :
    (lo hi : ℕ) (n : SummaryNode) (ns : List SummaryNode)
    → Tiles lo (n ∷ ns) hi
    → last_end n ns ≡ hi
last_end-Tiles lo hi n [] t = t.2
last_end-Tiles lo hi n (m ∷ ms) t = last_end-Tiles n.end_idx hi m ms t.2

last_end-lt :
    (lo hi : ℕ) (n : SummaryNode) (ns : List SummaryNode)
    → Tiles lo (n ∷ ns) hi
    → lo < last_end n ns
last_end-lt lo hi n [] t = t.1
last_end-lt lo hi n (m ∷ ms) t = omega (arith, t.1, last_end-lt n.end_idx hi m ms t.2)

-- The nodes, in groups that each are the children of one of the upper nodes, which has their range.
pub data Grouped : List SummaryNode → List SummaryNode → Type 0 where
  no_group : Grouped [] []
  group :
      (n s : SummaryNode) (ns rest ss : List SummaryNode)
      → s.children ≡ ids_of (n ∷ ns)
      → s.start_idx ≡ n.start_idx
      → s.end_idx ≡ last_end n ns
      → Grouped rest ss
      → Grouped (n ∷ (ns ++ rest)) (s ∷ ss)

Tiles-append :
    (lo hi : ℕ) (ns rest : List SummaryNode)
    → Tiles lo (ns ++ rest) hi
    → (mid : ℕ) × Tiles lo ns mid × Tiles mid rest hi
Tiles-append lo hi [] rest t = (lo, refl, t)
Tiles-append lo hi (n ∷ ns) rest t =
    let (mid, a, b) = Tiles-append n.end_idx hi ns rest t.2 in (mid, (t.0, t.1, a), b)

pub Grouped-Tiles :
    (lo hi : ℕ) (ns ss : List SummaryNode) → Grouped ns ss → Tiles lo ns hi → Tiles lo ss hi
Grouped-Tiles lo hi _ _ no_group t = t
Grouped-Tiles lo hi _ _ (group n s ns rest ss kids start end more) t =
    let (mid, a, b) = Tiles-append lo hi (n ∷ ns) rest t in
    let last = last_end-Tiles lo mid n ns a in
    (
      start ∙ t.0,
      omega (arith, last_end-lt lo mid n ns a, end),
      subst (λ x. Tiles x ss hi) (sym (end ∙ last)) (Grouped-Tiles mid hi rest ss more b),
    )

module _ (estimate_tokens : List ℕ → ℕ) (cfg : CompressorConfig) where
  pub sections_from-Grouped :
      (fuel counter : ℕ) (ns : List SummaryNode)
      → 0 < pos_part cfg.section_size
      → length ns ≤ fuel
      → (ss : List SummaryNode) × (last : ℕ) × (sections_from estimate_tokens cfg fuel counter ns
          ≡ some (ss, last))
        × Grouped ns ss
        × Numbered counter ss last
  unfolding sections_from summary_of
  sections_from-Grouped fuel counter [] positive enough = ([], counter, refl, no_group, omega arith)
  sections_from-Grouped zero counter (n ∷ ns) positive enough = absurd (omega (arith, enough))
  sections_from-Grouped (suc fuel) counter (n ∷ ns) positive enough =
      let (gs, e, split) = take_first (pos_part cfg.section_size) n ns positive in
      let less : length (drop (pos_part cfg.section_size) (n ∷ ns)) ≤ fuel =
        omega (arith, length-drop (pos_part cfg.section_size) (n ∷ ns), enough, positive) in
      let (ss, last, runs, grouped, numbered) =
        sections_from-Grouped fuel (suc counter) (drop (pos_part cfg.section_size) (n ∷ ns))
          positive less in
      let section = summary_of estimate_tokens cfg (section_id (suc counter)) level_section n gs in
      (
        section ∷ ss,
        last,
        rw (e, runs, sections_from) refl,
        subst (λ l. Grouped l (section ∷ ss)) (sym split)
            (group n section gs (drop (pos_part cfg.section_size) (n ∷ ns)) ss refl refl refl
              grouped),
        (omega arith, numbered),
      )

  pub build_chunks-Tiles :
      (fuel start counter : ℕ) (ms : List Message)
      → 0 < pos_part cfg.chunk_size
      → length ms ≤ fuel
      → (chunks : List SummaryNode) × (last : ℕ) × (build_chunks estimate_tokens cfg fuel start
            counter ms
          ≡ some (chunks, last))
        × Tiles start chunks (start + length ms)
        × AllShort (pos_part cfg.chunk_size) chunks
        × Numbered counter chunks last
  unfolding build_chunks chunk_of
  build_chunks-Tiles fuel start counter [] positive enough =
      ([], counter, refl, omega arith, tt, omega arith)
  build_chunks-Tiles zero start counter (m ∷ ms) positive enough = absurd (omega (arith, enough))
  build_chunks-Tiles (suc fuel) start counter (m ∷ ms) positive enough =
      let size = pos_part cfg.chunk_size in
      let part = take size (m ∷ ms) in
      let behind = drop size (m ∷ ms) in
      let chunk = chunk_of estimate_tokens cfg (suc counter) start part in
      let taken = length-take size (m ∷ ms) in
      let left = length-drop size (m ∷ ms) in
      let (chunks, last, runs, tiles, short, numbered) =
        build_chunks-Tiles fuel (start + size) (suc counter) behind positive
          (omega (arith, left, enough, positive)) in
      elim (dec_lt size (length (m ∷ ms))) [
        | yes more ↦
            let full : length part ≡ size = omega (arith, taken, more) in
            let hi : start + size + length behind ≡ start + length (m ∷ ms) =
              omega (arith, left, more) in
            (
              chunk ∷ chunks,
              last,
              rw (runs, build_chunks) refl,
              (
                refl,
                omega (arith, full, positive),
                subst (λ x. Tiles (start + x) chunks (start + length (m ∷ ms))) (sym full)
                    (subst (Tiles (start + size) chunks) hi tiles),
              ),
              (omega (arith, full), short),
              (omega arith, numbered),
            )
        | no all ↦
            let nothing = drop_of_length-le size (m ∷ ms) (omega (arith, all)) in
            (
              chunk ∷ [],
              suc counter,
              rw (nothing, build_chunks) refl,
              (refl, omega (arith, taken, positive), omega (arith, taken, all)),
              (omega (arith, taken), tt),
              (omega arith, omega arith),
            )
      ]
