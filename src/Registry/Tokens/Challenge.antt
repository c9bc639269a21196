-- ===== src/Registry/Tokens/Challenge.antt =====
-- How a challenge is read, and which mirror it is matched to.
use pulld.Base.{
  ℕ, suc, ◌≤◌, ◌≡◌, refl, ◌∙◌, none, List, [], ◌∷◌, arith, unwrap_or, Bool-cases, inl, inr,
  if◌then◌else◌,
}
use pulld.Text.{Text, text, split, strip_prefix, trim, starts_with}
use pulld.Registry.Tokens.{
  Challenged, read_part, read_parts, challenge_of, realm_in, realm_from_www_authenticate, quoted,
}

-- The number of parts that give a realm.
abbrev pub realms : List Text → ℕ
realms [] = 0
realms (part ∷ parts) =
    if starts_with (trim part) (text "realm=") then suc (realms parts) else realms parts

read_part-realm :
    (c : Challenged) (part : Text)
    → (read_part c part).realm
      ≡ (if starts_with part (text "realm=") then quoted part (text "realm=") else c.realm)
unfolding read_part
read_part-realm c part = ground arith

read_parts-realm_kept :
    (c : Challenged) (parts : List Text) → realms parts ≡ 0 → (read_parts c parts).realm ≡ c.realm
unfolding read_parts
read_parts-realm_kept c [] h = refl
read_parts-realm_kept c (part ∷ parts) h =
    elim (Bool-cases (starts_with (trim part) (text "realm="))) [
      | inl e ↦ absurd (ground arith)
      | inr e ↦
          read_parts-realm_kept (read_part c (trim part)) parts (ground arith)
          ∙ read_part-realm c (trim part)
          ∙ rw e refl
    ]

read_parts-realm :
    (c : Challenged) (parts : List Text)
    → realms parts ≤ 1
    → c.realm ≡ none
    → (read_parts c parts).realm ≡ realm_in parts
unfolding read_parts realm_in
read_parts-realm c [] h n = n
read_parts-realm c (part ∷ parts) h n =
    elim (Bool-cases (starts_with (trim part) (text "realm="))) [
      | inl e ↦
          read_parts-realm_kept (read_part c (trim part)) parts (ground arith)
          ∙ read_part-realm c (trim part)
          ∙ rw e refl
      | inr e ↦
          read_parts-realm (read_part c (trim part)) parts (ground arith)
            (read_part-realm c (trim part) ∙ rw e n)
          ∙ rw e refl
    ]

abbrev pub parts_of : Text → List Text
parts_of www_auth = split (unwrap_or (strip_prefix www_auth (text "Bearer ")) www_auth) b','

-- A challenge with at most one `realm=` gives the realm of the token's address and the realm that
-- is matched against the mirrors as one and the same.
pub challenge_of-realm :
    (www_auth : Text)
    → realms (parts_of www_auth) ≤ 1
    → (challenge_of www_auth).realm ≡ realm_from_www_authenticate www_auth
unfolding challenge_of realm_from_www_authenticate
challenge_of-realm www_auth h =
    read_parts-realm (record { realm = none; service = none; scope = none }) (parts_of www_auth) h
      refl
