-- ===== src/Prepull/Layers.antt =====
-- What the pre-pull of src/prepull.rs reads in a manifest: `extract_layer_digests`, and the choice of
-- a platform in `pull_image`.
use pulld.Base.{
  Bool, false, ◌&&◌, ◌||◌, Option, none, some, ◌>>=◌, List, [], ◌∷◌, ◌++◌, is_empty, unwrap_or,
  if◌then◌else◌, DockerProxyError, Result, ok, err,
}
use pulld.Text.{Text, text, text_eq, contains_text}
use pulld.Json.{Json, str_field}

abbrev pub is_index_type : Text → Bool
is_index_type mt = contains_text mt (text "manifest.list") || contains_text mt (text "index")

abbrev is_text : Text → Option Text → Bool
is_text s none = false
is_text s (some t) = text_eq t s

module _ (J : Json) where
  -- An entry of a list for a system and an architecture.
  abbrev pub is_platform : Text → Text → J.Value → Bool
  is_platform arch os entry = elim (J.get entry (text "platform")) [
    | none ↦ false
    | some platform ↦
        is_text os (str_field J platform (text "os"))
        && is_text arch (str_field J platform (text "architecture"))
  ]

  -- The digest of the first entry for the platform that has one, or else that of the first entry that
  -- has one.
  unfoldable pub select_digest : Text → Text → List J.Value → Option Text → Option Text
  select_digest arch os [] selected = selected
  select_digest arch os (entry ∷ entries) selected = elim (str_field J entry (text "digest")) [
    | none ↦ select_digest arch os entries selected
    | some digest ↦
        let rest = select_digest arch os entries (some (unwrap_or selected digest)) in
        if is_platform arch os entry then some digest else rest
  ]

  -- The digests of a list's entries, up to the first for linux/amd64: of the others, those are kept
  -- that find no digest before them.
  unfoldable pub entry_digests : List J.Value → List Text → List Text
  entry_digests [] digests = digests
  entry_digests (entry ∷ entries) digests =
      let preferred = is_platform (text "amd64") (text "linux") entry in
      let skipped = entry_digests entries digests in
      elim (if preferred || is_empty digests then str_field J entry (text "digest") else none) [
        | none ↦ skipped
        | some digest ↦
            let rest = entry_digests entries (digests ++ digest ∷ []) in
            if preferred then digests ++ digest ∷ [] else rest
      ]

  unfoldable pub layer_digests : List J.Value → List Text
  layer_digests [] = []
  layer_digests (layer ∷ layers) = elim (str_field J layer (text "digest")) [
    | none ↦ layer_digests layers
    | some digest ↦ digest ∷ layer_digests layers
  ]

  abbrev pub config_digest : J.Value → List Text
  config_digest manifest =
      elim (do str_field J (← J.get manifest (text "config")) (text "digest")) [
        | none ↦ []
        | some digest ↦ digest ∷ []
      ]

  abbrev pub layers_of : J.Value → Option (List J.Value)
  layers_of manifest = do J.as_array (← J.get manifest (text "layers"))

  abbrev pub manifests_of : J.Value → Option (List J.Value)
  manifests_of manifest = do J.as_array (← J.get manifest (text "manifests"))

  abbrev pub media_type : J.Value → Text
  media_type manifest = unwrap_or (str_field J manifest (text "mediaType")) []

  abbrev list_digests : J.Value → List Text
  list_digests manifest =
      if is_index_type (media_type manifest)
      then (elim (manifests_of manifest) [ none ↦ [] | some entries ↦ entry_digests entries [] ])
      else []

  -- The layers, and the blob of the configuration.
  abbrev pub image_digests : J.Value → List Text
  image_digests manifest = elim (layers_of manifest) [
    | none ↦ []
    | some layers ↦ layer_digests layers ++ config_digest manifest
  ]

  -- The same is read twice, as Docker's format and as that of the OCI.
  unfoldable pub extract_layer_digests : J.Value → Result (List Text)
  unfolding entry_digests layer_digests contains_text
  extract_layer_digests manifest =
      if is_empty (list_digests manifest)
      then (if is_empty (image_digests manifest)
          then (if is_empty (config_digest manifest)
              then err DockerProxyError.registry
              else ok (config_digest manifest))
          else ok (image_digests manifest))
      else ok (list_digests manifest)
