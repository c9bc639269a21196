-- ===== src/Prepull/Run/Clients.antt =====
-- Whom the pre-pull and the proxy ask for an image.
use pulld.Base.{
  ◌≡◌, refl, sym, ap, ◌∙◌, true, false, ◌&&◌, none, some, List, [], ◌∷◌, ◌++◌, is_none, arith,
  Bool-cases, Option-cases, inl, inr,
}
use pulld.Text.{Text, text, text_eq}
use pulld.Text.Laws.{text_eq_sym}
use pulld.Registry.Upstreams.{
  RegistryConfig, UpstreamClient, Registries, default_registry_name, lookup, is_domain, new_client,
  get_upstream_client,
}
use pulld.Registry.Upstreams.Configured.{
  configured_clients, make_clients, with_default, default_client,
}
use pulld.Prepull.Run.{image_registry, image_client}

-- The clients are those of the configured registries.
configured-none :
    (s : Registries) (configs : List (Text × RegistryConfig))
    (clients : List (Text × UpstreamClient)) (registry : Text)
    → configured_clients s configs ≡ some clients
    → is_none (lookup clients registry) ≡ is_none (lookup configs registry)
unfolding configured_clients lookup
configured-none s [] clients registry h = ground arith
configured-none s ((name, config) ∷ configs) clients registry h =
    elim (Option-cases (new_client s config.mirrors config)) [
      | inl e ↦ absurd (ground arith)
      | inr (client, e) ↦ elim (Option-cases (configured_clients s configs)) [
        | inl f ↦ absurd (ground arith)
        | inr (rest, f) ↦ ground (arith, configured-none s configs rest registry f)
      ]
    ]

-- What is made, where anything is.
made :
    (s s' : Registries)
    → make_clients s ≡ some s'
    → (clients : List (Text × UpstreamClient)) × (default : UpstreamClient) × (configured_clients s
          s.registry_configs
        ≡ some clients)
      × (default_client s ≡ some default)
      × (with_default s clients default ≡ s')
unfolding make_clients
made s s' h = elim (Option-cases (configured_clients s s.registry_configs)) [
  | inl e ↦ absurd (ground arith)
  | inr (clients, e) ↦ elim (Option-cases (default_client s)) [
    | inl f ↦ absurd (ground arith)
    | inr (default, f) ↦
        let same : make_clients s ≡ some (with_default s clients default) =
          simp (make_clients, e, f) in
        (clients, default, e, f, cc)
  ]
]

lookup-with_default :
    (s : Registries) (clients : List (Text × UpstreamClient)) (default : UpstreamClient)
    (registry : Text)
    → text_eq default_registry_name registry ≡ false
    → lookup (with_default s clients default).registry_clients registry ≡ lookup clients registry
unfolding lookup
lookup-with_default s clients default registry other =
    elim (Bool-cases (is_none (lookup clients default_registry_name))) [
      | inl e ↦ rw e (rw other refl)
      | inr e ↦ rw e refl
    ]

-- Where a client can be made at all, one is made for every domain.
builds_from :
    (s : Registries) (default : UpstreamClient) → default_client s ≡ some default → s.builds ≡ true
unfolding new_client
builds_from s default h = elim (Bool-cases s.builds) [ inl e ↦ e | inr e ↦ absurd (ground arith) ]

asks_own :
    (s : Registries) (registry : Text)
    → s.builds ≡ true
    → is_domain registry ≡ true
    → lookup s.registry_clients registry ≡ none
    → (get_upstream_client s registry).0.mirrors ≡ (text "https://" ++ registry) ∷ []
unfolding get_upstream_client new_client
asks_own s registry b e absent = simp (get_upstream_client, new_client, absent, e, b)

default_mirrors :
    (s : Registries) (default : UpstreamClient)
    → default_client s ≡ some default
    → default.mirrors ≡ text "https://registry-1.docker.io" ∷ []
unfolding new_client
default_mirrors s default h = elim (Bool-cases s.builds) [
  | inl e ↦ ground arith
  | inr e ↦ absurd (ground arith)
]

other_name :
    (registry : Text) → is_domain registry ≡ true → text_eq default_registry_name registry ≡ false
other_name registry e = elim (Bool-cases (text_eq registry default_registry_name)) [
  | inr o ↦ text_eq_sym registry default_registry_name o
  | inl o ↦ absurd (ground arith)
]

-- A domain's name has the client that was made for its configuration, if any.
domain-none :
    (s s' : Registries) (registry : Text)
    → make_clients s ≡ some s'
    → is_domain registry ≡ true
    → is_none (lookup s'.registry_clients registry) ≡ is_none (lookup s.registry_configs registry)
domain-none s s' registry m e =
    let (clients, default, f, g, same) = made s s' m in
    rw (← same) (
      ap is_none (lookup-with_default s clients default registry (other_name registry e))
      ∙ configured-none s s.registry_configs clients registry f)

-- With the clients that both make of one configuration, an image of a registry that is a domain's
-- name other than Docker Hub's, and is not configured, is asked of Docker Hub by the pre-pull, and of
-- the registry itself by the proxy.
pub image_client-unconfigured :
    (s s' : Registries) (image : Text)
    → make_clients s ≡ some s'
    → is_domain (image_registry image) ≡ true
    → is_none (lookup s.registry_configs (image_registry image)) ≡ true
    → ((image_client s' image).mirrors ≡ text "https://registry-1.docker.io" ∷ [])
      × ((get_upstream_client s' (image_registry image)).0.mirrors
          ≡ (text "https://" ++ image_registry image) ∷ [])
unfolding image_client
image_client-unconfigured s s' image m e absent =
    let registry = image_registry image in
    let (clients, default, f, g, same) = made s s' m in
    let missing : is_none (lookup s'.registry_clients registry) ≡ true =
      domain-none s s' registry m e ∙ absent in
    elim (Option-cases (lookup s'.registry_clients registry)) [
      | inr (client, h) ↦ absurd (ground arith)
      | inl h ↦ (
        simp (image_client, h)
            (ap (λ r. r.default_registry_client.mirrors) (sym same) ∙ default_mirrors s default g),
        asks_own s' registry (ap (λ r. r.builds) (sym same) ∙ builds_from s default g) e h,
      )
    ]

-- With the clients that both make of one configuration, the pre-pull and the proxy ask the same client
-- for an image whose registry is configured, is Docker Hub, or is no domain's name.
pub image_client-agree :
    (s s' : Registries) (image : Text)
    → make_clients s ≡ some s'
    → (is_domain (image_registry image)
        && is_none (lookup s.registry_configs (image_registry image)))
      ≡ false
    → image_client s' image ≡ (get_upstream_client s' (image_registry image)).0
unfolding image_client get_upstream_client
image_client-agree s s' image m other =
    let registry = image_registry image in
    elim (Option-cases (lookup s'.registry_clients registry)) [
      | inr (client, h) ↦ simp (image_client, get_upstream_client, h)
      | inl h ↦ elim (Bool-cases (is_domain registry)) [
        | inr e ↦ simp (image_client, get_upstream_client, h, e)
        | inl e ↦ let k = domain-none s s' registry m e in absurd (ground arith)
      ]
    ]
