-- ===== src/Registry/Tokens/Tests.antt =====
-- Examples of the cache of tokens and of a challenge.
use pulld.Base.{◌≡◌, refl, some, [], ◌∷◌}
use pulld.Text.{Text, text}
use pulld.Registry.Tokens.{token_url, mirror_index_from_realm}

abbrev hub_challenge : Text
hub_challenge = text "Bearer realm=\"https://auth.docker.io/token\",service=\"registry.docker.io\""

token_url_example :
    token_url hub_challenge (text "library/alpine")
    ≡ some (
        text
          "https://auth.docker.io/token?service=registry.docker.io&scope=repository:library/alpine:pull")
unfolding token_url
token_url_example = refl

mirror_example :
    mirror_index_from_realm
      (λ s. s)
      (text "https://auth.docker.io/token")
      (text "https://m.example" ∷ text "https://registry-1.docker.io" ∷ [])
    ≡ some 1
unfolding mirror_index_from_realm
mirror_example = refl
