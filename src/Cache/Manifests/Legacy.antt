-- ===== src/Cache/Manifests/Legacy.antt =====
-- On disk, `write_manifest` touches no mapping of a tag, and no manifest with a path of its own.
use pulld.Base.{ℕ, ◌≡◌, false}
use pulld.Text.{Text, text, text_eq, replace}
use pulld.Text.Laws.{text_eq_sym}
use pulld.Cache.{CacheStorage, filesystem, join_path, bare}
use pulld.Cache.Disk.{Bytes, Disk, read_file, ObjectStore, Cached}
use pulld.Cache.Keys.{manifest_path, manifest_path_by_digest, tag_digest_mapping_path}
use pulld.Cache.Manifests.{write_manifest, read_tag_digest_mapping, read_manifest_by_digest}
use pulld.Cache.Manifests.Tagged.{last-join_path, endings_differ, write_in_place-other}

mapping_apart :
    (c : CacheStorage) (registry repository reference tag : Text)
    → text_eq
        (manifest_path c registry repository reference)
        (tag_digest_mapping_path c registry repository tag)
      ≡ false
unfolding tag_digest_mapping_path manifest_path
mapping_apart c registry repository reference tag =
    let dir = join_path (join_path c.manifests_dir registry) repository in
    let p = manifest_path c registry repository reference in
    let q = tag_digest_mapping_path c registry repository tag in
    text_eq_sym q p (
      endings_differ q p
        (last-join_path (join_path dir (text "tags")) (replace tag b':' (text "_")) b'.'
          (text "digest"))
        (last-join_path dir (replace (bare reference) b':' (text "_")) b'.' (text "json")))

module _ (S : ObjectStore) (c : CacheStorage) (d e : Disk) (now : ℕ) (s : Cached S)
    (registry repository reference : Text) (content : Bytes) (b : c.backend ≡ filesystem) where
  pub read_tag_digest_mapping-written :
      (tag : Text)
      → read_tag_digest_mapping S c e
          (write_manifest S c d now s registry repository reference content).0
          registry
          repository
          tag
        ≡ read_tag_digest_mapping S c e s registry repository tag
  unfolding write_manifest read_tag_digest_mapping read_file
  read_tag_digest_mapping-written tag = simp (
    write_manifest,
    read_tag_digest_mapping,
    read_file,
    b,
    write_in_place-other S d now s (manifest_path c registry repository reference)
        (tag_digest_mapping_path c registry repository tag) content
        (mapping_apart c registry repository reference tag),
  )

  pub read_manifest_by_digest-written :
      (digest : Text)
      → text_eq
          (manifest_path c registry repository reference)
          (manifest_path_by_digest c registry repository digest)
        ≡ false
      → read_manifest_by_digest S c e
          (write_manifest S c d now s registry repository reference content).0
          registry
          repository
          digest
        ≡ read_manifest_by_digest S c e s registry repository digest
  unfolding write_manifest read_manifest_by_digest read_file
  read_manifest_by_digest-written digest apart = simp (
    write_manifest,
    read_manifest_by_digest,
    read_file,
    b,
    write_in_place-other S d now s (manifest_path c registry repository reference)
        (manifest_path_by_digest c registry repository digest) content apart,
  )
