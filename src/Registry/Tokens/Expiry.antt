-- ===== src/Registry/Tokens/Expiry.antt =====
-- Which tokens the cache of tokens answers with.
use pulld.Base.{
  ℕ, ◌+◌, ◌-◌, ◌≤◌, ◌≡◌, refl, Option, none, some, ◌>>=◌, [], ◌∷◌, arith, ltb, unwrap_or,
  if◌then◌else◌,
}
use pulld.Text.{Text, text_eq}
use pulld.Text.Laws.{text_eq_iff}
use pulld.Registry.Tokens.{
  CachedToken, TokenCache, find_token, put_token, retain, get_token, insert_token, seconds,
}

find_token-put_token :
    (tokens : TokenCache) (k j : Text) (t : CachedToken)
    → find_token (put_token tokens k t) j ≡ (if text_eq k j then some t else find_token tokens j)
unfolding find_token put_token
find_token-put_token [] k j t = refl
find_token-put_token ((i, old) ∷ tokens) k j t =
    ground
      (arith, text_eq_iff i k, text_eq_iff i j, text_eq_iff k j, find_token-put_token tokens k j t)

-- Each key has one entry.
abbrev pub IsMap : TokenCache → Type 0
IsMap [] = Unit
IsMap ((k, t) ∷ rest) = (find_token rest k ≡ none) × IsMap rest

find_token-retain :
    (now : ℕ) (tokens : TokenCache) (j : Text)
    → IsMap tokens
    → find_token (retain now tokens) j
      ≡ (do t ← find_token tokens j; if ltb now t.expires_at then some t else none)
unfolding find_token retain
find_token-retain now [] j h = refl
find_token-retain now ((k, t) ∷ tokens) j (fresh, h) =
    ground (arith, text_eq_iff k j, find_token-retain now tokens j h)

put_token-IsMap :
    (tokens : TokenCache) (k : Text) (t : CachedToken) → IsMap tokens → IsMap (put_token tokens k t)
unfolding find_token put_token
put_token-IsMap [] k t h = (refl, tt)
put_token-IsMap ((i, old) ∷ tokens) k t (fresh, h) = ground (
  arith,
  text_eq_iff i k,
  text_eq_iff k i,
  find_token-put_token tokens k i t,
  put_token-IsMap tokens k t h,
)

retain-IsMap : (now : ℕ) (tokens : TokenCache) → IsMap tokens → IsMap (retain now tokens)
unfolding retain
retain-IsMap now [] h = tt
retain-IsMap now ((k, t) ∷ tokens) (fresh, h) =
    ground (arith, retain-IsMap now tokens h, find_token-retain now tokens k h)

-- A cache with one entry for each key keeps that when a token is inserted, and later answers for
-- the token's key with the token until 30 seconds before its expiry, which is 300 seconds if none
-- is given; for every other key it answers as it would have without the token.
pub insert_token-get_token :
    (now later asked : ℕ) (tokens : TokenCache) (key token : Text) (expires : Option ℕ)
    → IsMap tokens
    → later ≤ asked
    → let tokens' = insert_token now later tokens key token expires in
      IsMap tokens'
      × ((j : Text)
          → get_token asked tokens' j ≡ (
              if text_eq key j
              then (if ltb asked (now + seconds (unwrap_or expires 300 - 30))
                  then some token
                  else none)
              else get_token asked tokens j))
unfolding insert_token get_token
insert_token-get_token now later asked tokens key token expires h le =
    (retain-IsMap later put (put_token-IsMap tokens key t h), got)
  where
    t : CachedToken
    t = record { token = token; expires_at = now + seconds (unwrap_or expires 300 - 30) }

    put : TokenCache
    put = put_token tokens key t

    got :
        (j : Text)
        → get_token asked (retain later put) j ≡ (
            if text_eq key j
            then (if ltb asked (now + seconds (unwrap_or expires 300 - 30))
                then some token
                else none)
            else get_token asked tokens j)
    got j = ground (
      arith,
      find_token-retain later put j (put_token-IsMap tokens key t h),
      find_token-put_token tokens key j t,
    )
