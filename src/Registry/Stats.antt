-- ===== src/Registry/Stats.antt =====
-- `MirrorStats` and `MirrorSelector` of src/registry/mirror_racer.rs. Floating-point numbers are a
-- parameter, and so is the time at which an operation looks at the clock.
pub mod Counts
pub mod Selection
pub mod Sample
mod Tests
use pulld.Base.{
  ℕ, suc, ◌+◌, ◌-◌, ◌%◌, ◌^◌, min, Bool, true, false, not, Option, none, some, List, [], ◌∷◌, map,
  length, take, range, leb, ltb, ◌==◌, if◌then◌else◌,
}
use pulld.Text.{Text, text_eq}

-- The operations on `f64` that the code uses; `of_nat` is the conversion `as f64`, and `alpha`
-- the literal `0.3`. `lt` and `le` are the order, false where it does not compare.
pub record Float : Type 1 where
  pub F : Type 0
  pub of_nat : ℕ → F
  pub alpha : F
  pub add : F → F → F
  pub sub : F → F → F
  pub mul : F → F → F
  pub div : F → F → F
  pub lt : F → F → Bool
  pub le : F → F → Bool
  pub as_secs_f64 : ℕ → F

abbrev pub u32_modulus : ℕ
u32_modulus = 2 ^ 32

pub data MirrorStrategy : Type 0 where
  failover hedged striped adaptive : MirrorStrategy

abbrev pub max_adaptive_mirrors : ℕ
max_adaptive_mirrors = 3

-- A call of `update_stats`, without the selector.
pub record StatsUpdate : Type 0 where
  pub mirror : Text
  pub success : Bool
  pub rtt_ms : Option ℕ
  pub bytes : Option ℕ
  pub duration : Option ℕ

module _ (X : Float) where
  open X use {F, of_nat, alpha, add, sub, mul, div, lt, le, as_secs_f64}

  pub record MirrorStats : Type 0 where
    pub rtt_ewma : F
    pub throughput_ewma : F
    pub error_count : ℕ
    pub success_count : ℕ
    pub last_error : Option ℕ
    pub last_success : Option ℕ

  -- `DEFAULT_INITIAL_RTT_MS` is 1000.
  unfoldable pub default : MirrorStats
  default = record {
    rtt_ewma = of_nat 1000;
    throughput_ewma = of_nat 0;
    error_count = 0;
    success_count = 0;
    last_error = none;
    last_success = none;
  }

  abbrev ewma : F → F → F
  ewma new old = add (mul alpha new) (mul (sub (of_nat 1) alpha) old)

  -- The counters are `u32`, and wrap as release builds do.
  unfoldable pub record_success : ℕ → MirrorStats → ℕ → ℕ → ℕ → MirrorStats
  record_success now s rtt_ms bytes duration = record s {
    rtt_ewma = ewma (of_nat rtt_ms) s.rtt_ewma;
    throughput_ewma =
        let throughput = div (of_nat bytes) (as_secs_f64 duration) in
        if lt (of_nat 0) (as_secs_f64 duration)
        then ewma throughput s.throughput_ewma
        else s.throughput_ewma;
    success_count = (s.success_count + 1) % u32_modulus;
    last_success = some now;
    error_count = s.error_count - 1;
  }

  unfoldable pub record_error : ℕ → MirrorStats → MirrorStats
  record_error now s = record s {
    error_count = (s.error_count + 1) % u32_modulus;
    last_error = some now;
  }

  -- `ERROR_PENALTY_MS` is 1000.
  unfoldable pub score : MirrorStats → F
  score s =
      let rtt_with_penalty = add s.rtt_ewma (mul (of_nat s.error_count) (of_nat 1000)) in
      if le rtt_with_penalty (of_nat 0)
      then of_nat 0
      else div s.throughput_ewma (add rtt_with_penalty (of_nat 1))

  abbrev pub Stats : Type 0
  Stats = List (Text × MirrorStats)

  unfoldable pub get_stats : Stats → Text → Option MirrorStats
  get_stats [] mirror = none
  get_stats ((m, s) ∷ rest) mirror = if text_eq m mirror then some s else get_stats rest mirror

  -- The entry of a mirror is changed, or made from the default.
  unfoldable pub modify_entry : (MirrorStats → MirrorStats) → Stats → Text → Stats
  unfolding default
  modify_entry f [] mirror = (mirror, f default) ∷ []
  modify_entry f ((m, s) ∷ rest) mirror =
      if text_eq m mirror then (m, f s) ∷ rest else (m, s) ∷ modify_entry f rest mirror

  -- What an update does to the entry.
  unfoldable pub apply_update : ℕ → StatsUpdate → MirrorStats → MirrorStats
  unfolding record_success record_error
  apply_update now u s =
      if u.success
      then (elim u.rtt_ms [
        | none ↦ without_timing
        | some rtt ↦ elim u.bytes [
          | none ↦ without_timing
          | some bytes ↦ elim u.duration [
            | none ↦ without_timing
            | some duration ↦ record_success now s rtt bytes duration
          ]
        ]
      ])
      else record_error now s
    where
      without_timing : MirrorStats
      without_timing = record s {
        success_count = (s.success_count + 1) % u32_modulus;
        last_success = some now;
      }

  unfoldable pub update_stats : ℕ → Stats → StatsUpdate → Stats
  unfolding modify_entry apply_update
  update_stats now stats u = modify_entry (apply_update now u) stats u.mirror

  -- `DEFAULT_MIRROR_SCORE` is 1000.
  unfoldable pub score_of : Stats → Text → F
  unfolding get_stats score
  score_of stats mirror = elim (get_stats stats mirror) [ none ↦ of_nat 1000 | some s ↦ score s ]

  abbrev pub Scored : Type 0
  Scored = ℕ × F

  -- `enumerate` and `map`, from the index `i` on.
  unfoldable pub score_from : Stats → ℕ → List Text → List Scored
  unfolding score_of
  score_from stats i [] = []
  score_from stats i (m ∷ ms) = (i, score_of stats m) ∷ score_from stats (suc i) ms

  -- The stable sort of the library, by falling scores.
  unfoldable pub insert_scored : Scored → List Scored → List Scored
  insert_scored x [] = x ∷ []
  insert_scored x (y ∷ ys) = if lt x.1 y.1 then y ∷ insert_scored x ys else x ∷ y ∷ ys

  unfoldable pub sort_scored : List Scored → List Scored
  unfolding insert_scored
  sort_scored [] = []
  sort_scored (x ∷ xs) = insert_scored x (sort_scored xs)

  unfoldable pub select_adaptive : Stats → List Text → List ℕ
  unfolding score_from sort_scored
  select_adaptive stats mirrors =
      map (λ x. x.0)
        (take (min max_adaptive_mirrors (length mirrors))
          (sort_scored (score_from stats 0 mirrors)))

  -- `Hedged` answers with the index 0 even where there is no mirror.
  unfoldable pub select_mirrors : MirrorStrategy → Stats → List Text → List ℕ
  unfolding select_adaptive
  select_mirrors failover stats mirrors = range 0 (length mirrors)
  select_mirrors hedged stats mirrors = if leb 2 (length mirrors) then 0 ∷ 1 ∷ [] else 0 ∷ []
  select_mirrors striped stats mirrors = range 0 (length mirrors)
  select_mirrors adaptive stats mirrors = select_adaptive stats mirrors
