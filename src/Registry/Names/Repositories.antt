-- ===== src/Registry/Names/Repositories.antt =====
-- The two readings of repository names: the proxy's, and the pre-pull's.
use pulld.Base.{
  ℕ, ◌+◌, ◌≡◌, refl, ◌≢◌, ◌↔◌, ◌⊎◌, sym, ap, ◌∙◌, Bool, true, false, ◌||◌, ◌&&◌, not, Option, none,
  some, [], ◌∷◌, ◌++◌, length, length-append, arith, ◌==◌, Option-cases, inl, inr, if◌then◌else◌,
}
use pulld.Text.{Text, text, text_eq, strip_prefix, contains, split_once, count_char}
use pulld.Text.Laws.{split_once-append, strip_prefix-eq-some}
use pulld.Registry.Names.{default_registry_name, parse_repository}
use pulld.Prepull.Names.{proxy_prefix, parse_repository as prepull_repository}

-- The test of `parse_repository` on a name's first part, which keeps the name whole.
abbrev pub is_hub_user : Text → Text → Bool
is_hub_user first name =
    text_eq first (text "library") || (not (contains first b'.') && count_char name b'/' == 1)

count_char-absent : (s : Text) (c : ℕ) → contains s c ≡ false → count_char s c ≡ 0
unfolding contains count_char
count_char-absent [] c h = refl
count_char-absent (d ∷ s) c h = ground (arith, count_char-absent s c)

-- Has a name whose first part this is a registry in front: is the part not `library`, and has it a
-- dot, or has the rest another `/`?
abbrev pub names_registry : Text → Text → Bool
names_registry first rest =
    not (text_eq first (text "library")) && (contains first b'.' || contains rest b'/')

-- A character occurs exactly where it is counted.
count_char-none : (s : Text) (c : ℕ) → (count_char s c == 0) ≡ not (contains s c)
unfolding contains count_char
count_char-none [] c = refl
count_char-none (d ∷ s) c = ground (arith, count_char-none s c)

count_char-++ : (s t : Text) (c : ℕ) → count_char (s ++ t) c ≡ count_char s c + count_char t c
unfolding count_char
count_char-++ [] t c = omega arith
count_char-++ (d ∷ s) t c = ground (arith, count_char-++ s t c)

module _ (first rest : Text) (no_slash : contains first b'/' ≡ false) where
  abbrev name : Text
  name = first ++ (b'/' ∷ rest)

  parse_repository_lem :
      parse_repository name
      ≡ (if is_hub_user first name then (default_registry_name, name) else (first, rest))
  unfolding parse_repository
  parse_repository_lem =
      rw (split_once-append first rest b'/' no_slash, parse_repository) (ground arith)

  prepull_repository_lem :
      strip_prefix name proxy_prefix ≡ none → prepull_repository name ≡ (first, rest)
  unfolding prepull_repository
  prepull_repository_lem e =
      rw (e, prepull_repository) (rw (split_once-append first rest b'/' no_slash) refl)

  name-ne-rest : name ≢ rest
  name-ne-rest e = absurd (omega (arith, ap length e, length-append first (b'/' ∷ rest)))

  names_registry-is_hub_user : is_hub_user first name ≡ not (names_registry first rest)
  unfolding count_char
  names_registry-is_hub_user = ground (
    arith,
    count_char-++ first (b'/' ∷ rest) b'/',
    count_char-absent first b'/' no_slash,
    count_char-none rest b'/',
  )

  -- On a name with a `/` that does not begin with the proxy's own address, the pre-pull finds the
  -- registry and the repository that the proxy finds if and only if the part before the first `/` is
  -- not `library`, and has a dot or is followed by a second `/`. In the other cases the proxy keeps
  -- the whole name as a repository of Docker Hub, and the pre-pull cuts the first part off.
  pub parse_repository-agree_iff :
      strip_prefix name proxy_prefix ≡ none
      → ((prepull_repository name ≡ parse_repository name) ↔ (names_registry first rest ≡ true))
        × ((names_registry first rest ≡ true)
            ⊎ ((parse_repository name ≡ (default_registry_name, name))
                × (prepull_repository name ≡ (first, rest))))
  parse_repository-agree_iff e =
      rw (prepull_repository_lem e, parse_repository_lem, names_registry-is_hub_user)
        (by_test (names_registry first rest))
    where
      by_test :
          (b : Bool)
          → let proxy : Text × Text =
              if not b then (default_registry_name, name) else (first, rest) in
            ((◌≡◌ {A = Text × Text} (first, rest) proxy) ↔ (b ≡ true))
            × ((b ≡ true)
                ⊎ ((proxy ≡ (default_registry_name, name))
                    × (◌≡◌ {A = Text × Text} (first, rest) (first, rest))))
      by_test true = ((λ h. refl, λ h. refl), inl refl)
      by_test false = (
        (λ h. absurd (name-ne-rest (sym (ap (λ (p : Text × Text). p.1) h))), λ h. absurd (cc)),
        inr (refl, refl),
      )

  abbrev left : Option (Text × Text) → Text
  left none = []
  left (some (a, b)) = a

  strip_proxy-none : contains first b'.' ≡ false → strip_prefix name proxy_prefix ≡ none
  unfolding split_once contains
  strip_proxy-none no_dot = elim (Option-cases (strip_prefix name proxy_prefix)) [
    | inl e ↦ e
    | inr (r, e) ↦
        let whole = strip_prefix-eq-some name proxy_prefix r e in
        let cut : ◌≡◌ {A = Option (Text × Text)} (some (text "pulld.internal:5050", r))
            (some (first, rest)) =
          sym (ap (λ s. split_once s b'/') whole) ∙ split_once-append first rest b'/' no_slash in
        let head : text "pulld.internal:5050" ≡ first = ap left cut in
        let absent : true ≡ false = ap (λ s. contains s b'.') head ∙ no_dot in absurd (cc)
  ]

hub_user :
    (user repo : Text)
    → contains user b'/' ≡ false
    → contains user b'.' ≡ false
    → contains repo b'/' ≡ false
    → is_hub_user user (user ++ (b'/' ∷ repo)) ≡ true
unfolding count_char
hub_user user repo slash dot one = ground (
  arith,
  count_char-++ user (b'/' ∷ repo) b'/',
  count_char-absent user b'/' slash,
  count_char-absent repo b'/' one,
)

-- A repository `user/repo` of Docker Hub is one for the proxy. The pre-pull takes the user for a
-- registry, and asks for the repository `repo` alone.
pub parse_repository-user_repo :
    (user repo : Text)
    → contains user b'/' ≡ false
    → contains user b'.' ≡ false
    → contains repo b'/' ≡ false
    → (parse_repository (user ++ (b'/' ∷ repo)) ≡ (default_registry_name, user ++ (b'/' ∷ repo)))
      × (prepull_repository (user ++ (b'/' ∷ repo)) ≡ (user, repo))
parse_repository-user_repo user repo slash dot one = (
  rw (parse_repository_lem user repo slash) (rw (hub_user user repo slash dot one) refl),
  prepull_repository_lem user repo slash (strip_proxy-none user repo slash dot),
)
