-- ===== src/Registry/Race.antt =====
-- The races between mirrors of src/registry/mirror_racer.rs. The network is a parameter: it says
-- which requests end how, and in which order.
pub mod Order
pub mod Hedge
mod Tests
use pulld.Base.{
  ℕ, zero, suc, ◌+◌, Bool, true, false, ◌&&◌, ◌||◌, not, Option, none, some, List, [], ◌∷◌, ◌++◌,
  map, length, get_elem?, unwrap_or, is_empty, leb, ◌==◌, if◌then◌else◌, DockerProxyError, Result,
  ok, err,
}
use pulld.Text.{Text, text}
use pulld.Registry.Http.{Response, Request, is_success, unauthorized, header_u64}
use pulld.Registry.Stats.{
  Float, MirrorStrategy, failover, hedged, striped, adaptive, Stats, StatsUpdate, select_mirrors,
  update_stats,
}

-- How the task of one mirror ends. A response comes with the time that it took, and with the time
-- since the race began, both in milliseconds.
pub data Outcome : Type 0 where
  responded : Response → ℕ → ℕ → Outcome
  failed : Outcome
  panicked : Outcome

-- `content-length` of a response, or 0.
unfoldable pub content_length_or_zero : Response → ℕ
unfolding header_u64
content_length_or_zero r = unwrap_or (header_u64 r.headers (text "content-length")) 0

-- `mirrors[index]`; the indices of a race are in range.
abbrev pub mirror_at : List Text → ℕ → Text
mirror_at mirrors index = unwrap_or (get_elem? mirrors index) []

-- The variables of the loop of `race_mirrors`, with the calls of `update_stats` so far.
pub record RaceState : Type 0 where
  pub last_error : Option DockerProxyError
  pub last_response : Option Response
  pub auth_response : Option Response
  pub updates : List StatsUpdate

abbrev pub Raced : Type 0
Raced = Result Response × List StatsUpdate

-- After the loop: no mirror has given a 2xx.
unfoldable pub race_end : RaceState → Raced
race_end s = elim s.auth_response [
  | some r ↦ (ok r, s.updates)
  | none ↦ elim s.last_response [
    | some r ↦ (ok r, s.updates)
    | none ↦ (err (unwrap_or s.last_error DockerProxyError.registry), s.updates)
  ]
]

abbrev success_update : Text → Response → ℕ → ℕ → StatsUpdate
success_update mirror r rtt total = record {
  mirror = mirror;
  success = true;
  rtt_ms = some rtt;
  bytes = some (content_length_or_zero r);
  duration = some total;
}

abbrev error_update : Text → ℕ → StatsUpdate
error_update mirror rtt = record {
  mirror = mirror;
  success = false;
  rtt_ms = some rtt;
  bytes = none;
  duration = none;
}

-- The loop, over the outcomes in the order in which they come. An outcome has the index of its
-- request among those that were started.
unfoldable pub race_loop : List Text → List (ℕ × Outcome) → RaceState → Raced
unfolding race_end content_length_or_zero
race_loop mirrors [] s = race_end s
race_loop mirrors ((index, failed) ∷ rest) s =
    race_loop mirrors rest (record s { last_error = some DockerProxyError.registry })
race_loop mirrors ((index, panicked) ∷ rest) s =
    race_loop mirrors rest (record s { last_error = some DockerProxyError.registry })
race_loop mirrors ((index, responded r rtt total) ∷ rest) s =
    let next = race_loop mirrors rest (
      if r.status == unauthorized
      then record s { auth_response = some (unwrap_or s.auth_response r) }
      else record s {
        last_error = some DockerProxyError.registry;
        last_response = some r;
        updates = s.updates ++ (error_update (mirror_at mirrors index) rtt ∷ []);
      }) in
    if is_success r.status
    then (ok r, s.updates ++ (success_update (mirror_at mirrors index) r rtt total ∷ []))
    else next

-- How the two tasks of a hedged race end, the one that ends first in front.
pub record Hedged : Type 0 where
  pub primary_first : Bool
  pub primary : Outcome
  pub secondary : Outcome

abbrev pub is_accepted : Response → Bool
is_accepted r = is_success r.status || r.status == unauthorized

abbrev plain_update : Text → Bool → Option ℕ → StatsUpdate
plain_update mirror success bytes = record {
  mirror = mirror;
  success = success;
  rtt_ms = none;
  bytes = bytes;
  duration = none;
}

-- The task that ends last, where the first gave no response.
abbrev second_alone : Outcome → Raced
second_alone (responded r _ _) = (ok r, [])
second_alone failed = (err DockerProxyError.http, [])
second_alone panicked = (err DockerProxyError.registry, [])

-- The task that ends last, after an error status of the first.
abbrev second_after : Text → Text → Response → Outcome → Raced
second_after first_mirror second_mirror first (responded r _ _) =
    if is_accepted r
    then (
      ok r,
      plain_update second_mirror true (some (content_length_or_zero r))
          ∷ plain_update first_mirror false none
          ∷ [],
    )
    else (ok r, [])
second_after first_mirror second_mirror first failed = (err DockerProxyError.http, [])
second_after first_mirror second_mirror first panicked = (ok first, [])

-- The two branches of the `select!` differ in the roles of the mirrors alone.
unfoldable pub hedge_select : Text → Text → Outcome → Outcome → Raced
unfolding content_length_or_zero
hedge_select first_mirror second_mirror failed second = second_alone second
hedge_select first_mirror second_mirror panicked second = second_alone second
hedge_select first_mirror second_mirror (responded r _ _) second =
    if is_accepted r
    then (ok r, plain_update first_mirror true (some (content_length_or_zero r)) ∷ [])
    else second_after first_mirror second_mirror r second

-- A single request to the mirror that `client` stands for.
pub record Network : Type 0 where
  -- The outcomes of a race of these mirrors, in the order in which they come.
  pub race : List Text → Request → List (ℕ × Outcome)
  -- A hedged race of a primary and a secondary mirror, after a delay.
  pub hedge : Text → Text → ℕ → Request → Hedged
  -- One request, with the time that it took.
  pub send : Text → Request → Outcome

unfoldable pub race_mirrors_hedged : Network → List Text → ℕ → Request → Raced
unfolding hedge_select content_length_or_zero
race_mirrors_hedged net [] delay req = (err DockerProxyError.registry, [])
race_mirrors_hedged net (mirror ∷ []) delay req = elim (net.send mirror req) [
  | responded r rtt total ↦ (
    ok r,
    record {
      mirror = mirror;
      success = is_success r.status;
      rtt_ms = some rtt;
      bytes = some (content_length_or_zero r);
      duration = some total;
    }
        ∷ [],
  )
  | failed ↦ (err DockerProxyError.http, [])
  | panicked ↦ (err DockerProxyError.http, [])
]
race_mirrors_hedged net (primary ∷ secondary ∷ rest) delay req =
    let h = net.hedge primary secondary delay req in
    if h.primary_first
    then hedge_select primary secondary h.primary h.secondary
    else hedge_select secondary primary h.secondary h.primary

abbrev pub start : RaceState
start = record { last_error = none; last_response = none; auth_response = none; updates = [] }

module _ (X : Float) where
  -- The selector of a call, if it has one: its strategy and its statistics.
  pub record MirrorSelector : Type 0 where
    pub strategy : MirrorStrategy
    pub stats : Stats X

  -- The mirrors that a race starts: for `Adaptive` those that the selector selects, or a new
  -- selector where the call has none.
  unfoldable pub mirrors_to_race : MirrorStrategy → List Text → Option MirrorSelector → List Text
  unfolding select_mirrors
  mirrors_to_race adaptive mirrors none =
      map (mirror_at mirrors) (select_mirrors X adaptive [] mirrors)
  mirrors_to_race adaptive mirrors (some sel) =
      map (mirror_at mirrors) (select_mirrors X sel.strategy sel.stats mirrors)
  mirrors_to_race failover mirrors sel = mirrors
  mirrors_to_race hedged mirrors sel = mirrors
  mirrors_to_race striped mirrors sel = mirrors

  abbrev is_hedged : MirrorStrategy → Bool
  is_hedged hedged = true
  is_hedged _ = false

  -- The response or the error, and the calls of `update_stats` that are made if there is a selector.
  unfoldable pub race_mirrors :
      Network → List Text → Request → MirrorStrategy → ℕ → Option MirrorSelector → Raced
  unfolding race_mirrors_hedged race_loop mirrors_to_race
  race_mirrors net mirrors req strategy hedge_delay_ms sel =
      if is_empty mirrors
      then (err DockerProxyError.registry, [])
      else if is_hedged strategy && leb 2 (length mirrors)
      then race_mirrors_hedged net mirrors hedge_delay_ms req
      else race_loop mirrors (net.race (mirrors_to_race strategy mirrors sel) req) start
