-- ===== src/Registry/Stats/Tests.antt =====
-- Tests and examples of src/registry/mirror_racer.rs's statistics, with natural numbers in the place
-- of floating-point numbers.
use mathlib.Core.List.{Perm}
use pulld.Base.{ℕ, ◌≡◌, refl, true, none, List, [], ◌∷◌, ◌++◌, map, length, arith, All}
use pulld.Text.{Text, text}
use pulld.Registry.Stats.{Stats, MirrorStats, Scored, select_adaptive, score_from}
use pulld.Registry.Stats.Sample.{nat_float}
use pulld.Registry.Stats.Selection.{IsOrder, IsTop, select_adaptive-best}

abbrev mirror_a : Text
mirror_a = text "a"

abbrev mirror_b : Text
mirror_b = text "b"

abbrev with_throughput : ℕ → MirrorStats nat_float
with_throughput throughput = record {
  rtt_ewma = 1;
  throughput_ewma = throughput;
  error_count = 0;
  success_count = 0;
  last_error = none;
  last_success = none;
}

-- Of five mirrors three have statistics, and score 5, 2000 and 3000; the others score 1000.
abbrev mirrors : List Text
mirrors = mirror_a ∷ mirror_b ∷ text "c" ∷ text "d" ∷ text "e" ∷ []

abbrev stats : Stats nat_float
stats =
    (mirror_b, with_throughput 10)
    ∷ (text "c", with_throughput 4000)
    ∷ (text "e", with_throughput 6000)
    ∷ []

three_best : select_adaptive nat_float stats mirrors ≡ 4 ∷ 2 ∷ 0 ∷ []
unfolding select_adaptive
three_best = refl

nat_float-IsOrder : IsOrder nat_float
nat_float-IsOrder = record {
  is_number = λ a. true;
  asymmetric = λ a b h. ground arith;
  not_lt_trans = λ a b d n h f. ground arith;
}

select_adaptive-best_example :
    (chosen : List (Scored nat_float)) × (others : List (Scored nat_float)) × (select_adaptive
        nat_float stats mirrors
      ≡ map (λ x. x.0) chosen)
    × (length chosen ≡ 3)
    × Perm (chosen ++ others) (score_from nat_float stats 0 mirrors)
    × All (λ x. IsTop nat_float x others) chosen
unfolding score_from nat_float-IsOrder
select_adaptive-best_example =
    select_adaptive-best nat_float nat_float-IsOrder stats mirrors
      (refl, (refl, (refl, (refl, (refl, tt)))))
