-- ===== src/Prepull/Charts/Tests.antt =====
-- Examples of charts.
use pulld.Base.{ℕ, zero, suc, ◌≡◌, refl, false, none, some, [], ◌∷◌, ◌++◌}
use pulld.Text.{text, contains}
use pulld.Cache.Disk.{Bytes}
use pulld.Registry.Race.{Outcome, responded, failed}
use pulld.Prepull.Charts.{parse_specifier, chart_attempts}
use pulld.Prepull.Charts.Specifiers.{parse_specifier-dashed}

-- The chart `cert-manager` is looked for as `cert`.
parse_specifier-dashed_example :
    parse_specifier (text "cert" ++ b'-' ∷ text "manager-v1.0" ++ text ".tgz")
    ≡ some (record {
      name = text "cert";
      version = some (text "manager-v1.0");
      filename = text "cert" ++ b'-' ∷ text "manager-v1.0" ++ text ".tgz";
    })
unfolding contains
parse_specifier-dashed_example =
    parse_specifier-dashed (text "cert") (text "manager-v1.0") refl refl refl

abbrev response : ℕ → Bytes → Outcome
response status content =
    responded
      (record {
        status = status;
        headers = [];
        body = record { chunks = content ∷ []; broken = false };
      })
      1 2

-- A server's error, and then the chart.
abbrev second : ℕ → Outcome
second zero = failed
second (suc zero) = response 503 []
second (suc (suc n)) = response 200 (7 ∷ [])

second_attempt : chart_attempts second 1 3 ≡ some (7 ∷ [])
unfolding chart_attempts
second_attempt = refl

not_again : chart_attempts (λ n. response 404 []) 1 3 ≡ none
unfolding chart_attempts
not_again = refl
