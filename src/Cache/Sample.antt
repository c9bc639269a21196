-- ===== src/Cache/Sample.antt =====
-- A cache on disk, one in an object store, and disks and stores for examples.
use pulld.Base.{false, none, []}
use pulld.Text.{text}
use pulld.Cache.{CacheStorage, filesystem, object_store}
use pulld.Cache.Disk.{Disk, ObjectStore, Cached}

abbrev pub sample_cache : CacheStorage
sample_cache = record {
  base_dir = text "/c";
  blobs_dir = text "/c/blobs/sha256";
  manifests_dir = text "/c/manifests";
  charts_dir = text "/c/charts";
  max_size_bytes = 18446744073709551615;
  backend = filesystem;
}

abbrev pub s3_cache : CacheStorage
s3_cache = record sample_cache { backend = object_store (text "proxy") }

abbrev pub good_disk : Disk
good_disk = record {
  create_dir_fails = λ p. false;
  write_fails = λ p. none;
  rename_fails = λ p. false;
  read_fails = λ p. false;
  remove_fails = λ p. false;
  sync_fails = λ p. false;
}

-- A store without objects.
abbrev pub no_store : ObjectStore
no_store = record {
  Objects = Unit;
  head = λ s k. none;
  get = λ s k. none;
  get_range = λ s k a b. none;
  put = λ s k c. none;
  put_multipart = λ s k cs. none;
  delete = λ s k. none;
}

abbrev pub no_files : Cached no_store
no_files = record { files = []; objects = tt }
