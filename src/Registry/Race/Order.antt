-- ===== src/Registry/Race/Order.antt =====
-- Which answer the loop of `race_mirrors` gives.
use pulld.Base.{
  ℕ, ◌≡◌, refl, Bool, ◌&&◌, not, Option, none, some, List, [], ◌∷◌, arith, Bool-cases, inl, inr,
  ◌==◌, unwrap_or, if◌then◌else◌, Result, ok, err, DockerProxyError,
}
use pulld.Text.{Text}
use pulld.Registry.Http.{Response, is_success, unauthorized}
use pulld.Registry.Race.{
  Outcome, responded, failed, panicked, RaceState, race_end, race_loop, start,
}

-- The first response of a race that passes a test.
abbrev pub first_by : (Response → Bool) → List (ℕ × Outcome) → Option Response
first_by p [] = none
first_by p ((i, responded r rtt total) ∷ rest) = if p r then some r else first_by p rest
first_by p ((i, failed) ∷ rest) = first_by p rest
first_by p ((i, panicked) ∷ rest) = first_by p rest

-- The last one, or `r` where there is none.
abbrev pub last_by : (Response → Bool) → List (ℕ × Outcome) → Option Response → Option Response
last_by p [] last = last
last_by p ((i, responded r rtt total) ∷ rest) last =
    if p r then last_by p rest (some r) else last_by p rest last
last_by p ((i, failed) ∷ rest) last = last_by p rest last
last_by p ((i, panicked) ∷ rest) last = last_by p rest last

abbrev pub is_winner : Response → Bool
is_winner r = is_success r.status

abbrev pub is_challenge : Response → Bool
is_challenge r = r.status == unauthorized

abbrev pub is_other : Response → Bool
is_other r = not (is_success r.status) && not (r.status == unauthorized)

abbrev pub answer_or : Option Response → Result Response → Result Response
answer_or none other = other
answer_or (some r) other = ok r

abbrev pub earlier : Option Response → Option Response → Option Response
earlier none second = second
earlier (some r) second = some r

earlier-some : (o : Option Response) (r : Response) → earlier o (some r) ≡ some (unwrap_or o r)
earlier-some none r = refl
earlier-some (some q) r = refl

-- The loop from any state whose error is none or a registry error.
race_loop-from :
    (mirrors : List Text) (outcomes : List (ℕ × Outcome)) (s : RaceState)
    → unwrap_or s.last_error DockerProxyError.registry ≡ DockerProxyError.registry
    → (race_loop mirrors outcomes s).0
      ≡ answer_or (first_by is_winner outcomes) (
          answer_or
            (earlier s.auth_response (first_by is_challenge outcomes))
            (answer_or (last_by is_other outcomes s.last_response) (err DockerProxyError.registry)))
unfolding race_loop race_end
race_loop-from mirrors [] s h = ground arith
race_loop-from mirrors ((i, failed) ∷ rest) s h =
    race_loop-from mirrors rest (record s { last_error = some DockerProxyError.registry }) refl
race_loop-from mirrors ((i, panicked) ∷ rest) s h =
    race_loop-from mirrors rest (record s { last_error = some DockerProxyError.registry }) refl
race_loop-from mirrors ((i, responded r rtt total) ∷ rest) s h =
    elim (Bool-cases (is_success r.status)) [
      | inl e ↦ rw e refl
      | inr e ↦ elim (Bool-cases (r.status == unauthorized)) [
        | inl f ↦
            rw (e, f, earlier-some s.auth_response r)
              (race_loop-from mirrors rest
                (record s { auth_response = some (unwrap_or s.auth_response r) }) h)
        | inr f ↦ rw (e, f) (race_loop-from mirrors rest _ refl)
      ]
    ]

-- A race answers with the first 2xx response; if there is none with the first 401, if there is
-- none with the last other response, and with a registry error if no mirror responds.
pub race_loop-order :
    (mirrors : List Text) (outcomes : List (ℕ × Outcome))
    → (race_loop mirrors outcomes start).0
      ≡ answer_or (first_by is_winner outcomes) (
          answer_or
            (first_by is_challenge outcomes)
            (answer_or (last_by is_other outcomes none) (err DockerProxyError.registry)))
race_loop-order mirrors outcomes = race_loop-from mirrors outcomes start refl
