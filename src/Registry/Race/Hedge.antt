-- ===== src/Registry/Race/Hedge.antt =====
-- What a hedged race of two mirrors answers, and what it reports.
use pulld.Base.{
  ℕ, ◌≡◌, refl, Option, none, some, List, ◌∷◌, arith, Bool-cases, inl, inr, if◌then◌else◌, Result,
  ok, err, DockerProxyError,
}
use pulld.Text.{Text}
use pulld.Registry.Http.{Response, Request}
use pulld.Registry.Race.{
  Outcome, responded, failed, panicked, Network, Hedged, hedge_select, race_mirrors_hedged,
  is_accepted,
}

-- The response of a task if it is accepted: a 2xx or a 401.
abbrev pub accepted : Outcome → Option Response
accepted (responded r rtt total) = if is_accepted r then some r else none
accepted failed = none
accepted panicked = none

-- The tasks in the order in which they end.
abbrev pub earlier_task : Hedged → Outcome
earlier_task h = if h.primary_first then h.primary else h.secondary

abbrev pub later_task : Hedged → Outcome
later_task h = if h.primary_first then h.secondary else h.primary

-- The response of a task, whatever its status.
abbrev pub any_response : Outcome → Option Response
any_response (responded r rtt total) = some r
any_response failed = none
any_response panicked = none

-- Without an accepted response: the later task's answer, or the error of the later task, but for
-- a later task that panics after a response.
abbrev pub fallback : Outcome → Outcome → Result Response
fallback first (responded r rtt total) = ok r
fallback first failed = err DockerProxyError.http
fallback first panicked = elim (any_response first) [
  | none ↦ err DockerProxyError.registry
  | some r ↦ ok r
]

abbrev pub hedge_answer : Outcome → Outcome → Result Response
hedge_answer first second = elim (accepted first) [
  | some r ↦ ok r
  | none ↦ elim (accepted second) [ some r ↦ ok r | none ↦ fallback first second ]
]

hedge_select-answer :
    (a b : Text) (first second : Outcome)
    → (hedge_select a b first second).0 ≡ hedge_answer first second
unfolding hedge_select
hedge_select-answer a b failed (responded r rtt total) = ground arith
hedge_select-answer a b failed failed = refl
hedge_select-answer a b failed panicked = refl
hedge_select-answer a b panicked (responded r rtt total) = ground arith
hedge_select-answer a b panicked failed = refl
hedge_select-answer a b panicked panicked = refl
hedge_select-answer a b (responded q rtt total) (responded r rtt' total') = ground arith
hedge_select-answer a b (responded q rtt total) failed = ground arith
hedge_select-answer a b (responded q rtt total) panicked = ground arith

-- A hedged race of at least two mirrors answers with the first accepted response (a 2xx or a 401)
-- of the two tasks in the order in which they end; without one, with what the later task gives, or
-- with the earlier response if the later task panics.
pub race_mirrors_hedged-answer :
    (net : Network) (primary secondary : Text) (rest : List Text) (delay : ℕ) (req : Request)
    → let h = net.hedge primary secondary delay req in
      (race_mirrors_hedged net (primary ∷ secondary ∷ rest) delay req).0
      ≡ hedge_answer (earlier_task h) (later_task h)
unfolding race_mirrors_hedged
race_mirrors_hedged-answer net primary secondary rest delay req =
    let h = net.hedge primary secondary delay req in
    elim (Bool-cases h.primary_first) [
      | inl e ↦ rw e (hedge_select-answer primary secondary h.primary h.secondary)
      | inr e ↦ rw e (hedge_select-answer secondary primary h.secondary h.primary)
    ]
