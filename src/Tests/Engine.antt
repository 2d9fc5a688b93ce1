-- ===== src/Tests/Engine.antt =====
-- pkg/rlm/engine.go with a small strategy.
use dragonscale.Prelude.{◌≡◌, ◌≢◌, refl, [], ◌∷◌, some, none, arith}
use dragonscale.Prelude.Text.{join_by, codes}
use dragonscale.Prelude.Int.{pos}
use dragonscale.Rlm.Strategy.{
  Strings, StrategyConfig, final, partition_into, grep, looks_like_keyword_query, cut_quote,
  extract_keyword, plan_next,
}
use dragonscale.Rlm.Fanout.{merge_from, merge_results}
use dragonscale.Rlm.Engine.{Engine, recurse_on, answer}
use dragonscale.Rlm.Engine.Ends.{answer-total}

program : Unit {0}
unfolding looks_like_keyword_query cut_quote extract_keyword plan_next merge_from join_by
    merge_results
program = tt

abbrev plain_strings : Strings
plain_strings = record { to_lower = λ s. s; fields = λ s. s ∷ []; trim_space = λ s. s }

abbrev small : StrategyConfig
small = record { direct_threshold = pos 4; default_partition_k = pos 2; max_depth = pos 2 }

short_context : plan_next plain_strings small 4 (codes "why") 0 ≡ final
unfolding program
short_context = refl

quoted : plan_next plain_strings small 5 (codes "find \"it\" now") 1 ≡ grep (codes "it")
unfolding program
quoted = refl

split : plan_next plain_strings small 5 (codes "why") 1 ≡ partition_into (pos 2)
unfolding program
split = refl

deep : plan_next plain_strings small 5 (codes "why") 2 ≡ final
unfolding program
deep = refl

-- A maximal depth of 256 is one of 0 as a uint8.
depth_wraps :
    plan_next plain_strings (record small { max_depth = pos 256 }) 5 (codes "why") 0 ≡ final
unfolding program
depth_wraps = refl

-- A failed part and one that says the same again are left out.
merged :
    merge_results plain_strings (
      record { partition_idx = 0; answer = codes "a"; err = none; tokens = 1 }
      ∷ record { partition_idx = 1; answer = codes "b"; err = some []; tokens = 1 }
      ∷ record { partition_idx = 2; answer = codes "a"; err = none; tokens = 1 }
      ∷ record { partition_idx = 3; answer = codes "c"; err = none; tokens = 1 }
      ∷ [])
    ≡ codes "a\nc"
unfolding program
merged = refl

abbrev engine : Engine
engine = record {
  strings = plain_strings;
  strategy = small;
  refusal = λ path. none;
  call_model = λ path context query. record { text = context; tokens = 3; err = none };
}

answer-total_example :
    (answer engine (codes "why") (codes "a text of some lines") ≢ none)
    × (recurse_on engine (codes "why") 3 [] (codes "a text of some lines") 0
        ≡ answer engine (codes "why") (codes "a text of some lines"))
answer-total_example =
    answer-total engine (codes "why") (codes "a text of some lines") 3 (omega arith)
