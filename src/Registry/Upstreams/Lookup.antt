-- ===== src/Registry/Upstreams/Lookup.antt =====
-- What the client of a registry is, on every branch, and when it is asked for again.
use pulld.Base.{◌≡◌, arith, Option-cases, inl, inr}
use pulld.Text.{Text}
use pulld.Text.Laws.{text_eq_refl}
use pulld.Registry.Upstreams.{Registries, lookup, get_upstream_client}

-- A client that was found or made is found again, and nothing changes then.
pub get_upstream_client_idem :
    (s : Registries) (registry : Text)
    → let (client, s') = get_upstream_client s registry in
      get_upstream_client s' registry ≡ (client, s')
unfolding get_upstream_client lookup
get_upstream_client_idem s registry = elim (Option-cases (lookup s.registry_clients registry)) [
  | inr (client, e) ↦ ground arith
  | inl e ↦ ground (arith, text_eq_refl registry)
]
