-- ===== src/Registry/Race/Tests.antt =====
-- Examples of races between mirrors.
use pulld.Base.{ℕ, ◌≡◌, refl, false, none, List, [], ◌∷◌, ok}
use pulld.Text.{Text, text}
use pulld.Registry.Http.{Response, Request}
use pulld.Registry.Race.{responded, failed, Network, race_loop, start, race_mirrors_hedged}
use pulld.Registry.Race.Order.{race_loop-order}
use pulld.Registry.Race.Hedge.{race_mirrors_hedged-answer}

abbrev response_of : ℕ → Response
response_of status = record {
  status = status;
  headers = [];
  body = record { chunks = []; broken = false };
}

abbrev two_mirrors : List Text
two_mirrors = text "https://a.example" ∷ text "https://b.example" ∷ []

race_loop-order_example :
    (race_loop two_mirrors
      ((0, responded (response_of 401) 5 5) ∷ (1, responded (response_of 200) 9 9) ∷ [])
      start).0
    ≡ ok (response_of 200)
race_loop-order_example =
    race_loop-order two_mirrors
      ((0, responded (response_of 401) 5 5) ∷ (1, responded (response_of 200) 9 9) ∷ [])

challenge_example :
    (race_loop two_mirrors
      ((0, responded (response_of 500) 5 5) ∷ (1, responded (response_of 401) 9 9) ∷ [])
      start).0
    ≡ ok (response_of 401)
unfolding race_loop
challenge_example = refl

abbrev slow_primary : Network
slow_primary = record {
  race = λ mirrors req. [];
  hedge = λ a b delay req. record {
    primary_first = false;
    primary = responded (response_of 200) 9 9;
    secondary = responded (response_of 503) 5 5;
  };
  send = λ mirror req. failed;
}

abbrev blob_request : Request
blob_request = record {
  url_path = text "/v2/library/alpine/blobs/sha256:ab";
  auth_token = none;
  accept_header = none;
  range_header = none;
}

race_mirrors_hedged-answer_example :
    (race_mirrors_hedged slow_primary two_mirrors 100 blob_request).0 ≡ ok (response_of 200)
race_mirrors_hedged-answer_example =
    race_mirrors_hedged-answer slow_primary (text "https://a.example") (text "https://b.example") []
      100 blob_request
