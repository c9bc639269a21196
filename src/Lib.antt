-- ===== src/Lib.antt =====
-- pulld: a pull-through proxy for container registries, with a cache of blobs and manifests.
--
-- A client asks for /v2 paths; the server reads them (src/server.rs) and calls the handlers of
-- manifests and blobs (src/registry). A handler looks into the cache (src/cache/storage.rs) and
-- otherwise asks the mirrors of the registry: it races them (src/registry/mirror_racer.rs), meets
-- a challenge with a token (src/registry/manifest.rs), and passes the answer on while the blob is
-- kept and verified (src/registry/blob.rs). An admission webhook (src/admission.rs) rewrites the
-- images of pods so that they are pulled through the proxy.
--
-- The files and the code. A definition has the name of the function that it translates; a part
-- of a function has a name of its own, and the comment of its file says which part.
--   Base, Text, Json          lists, results and src/error.rs; the methods of `str`; serde_json
--   Admission                 src/admission.rs
--   Registry/Names            the readings of names in src/registry/manifest.rs and src/server.rs;
--                             those of src/prepull.rs are in Prepull/Names
--   Registry/Http             the messages of reqwest that the handlers read
--   Registry/Stats            the statistics and the selector of src/registry/mirror_racer.rs
--   Registry/Race             race_mirrors, race_mirrors_hedged of src/registry/mirror_racer.rs
--   Registry/Events           PullEventLog, PullMetrics of src/registry/manifest.rs
--   Registry/Tokens           TokenCache, fetch_registry_token_with_cache, and the matching of a
--                             realm to a mirror, of src/registry/manifest.rs
--   Registry/Upstreams        src/registry/upstream.rs, and AppState's look-ups of a registry
--   Registry/Blob             get_blob (Handler, with Retry for the mirrors after a 401) and
--                             head_blob (Head) of src/registry/blob.rs
--   Registry/Manifest         get_manifest (Handler) and head_manifest (Head) of
--                             src/registry/manifest.rs
--   Registry/Transfer         the background task of get_blob in src/registry/blob.rs
--   Cache                     src/cache/storage.rs: Keys (paths and keys), Disk (files and stores),
--                             Blobs, Streams, Evict, Manifests (manifests, tags and charts), and
--                             Flights (download_with_dedupe as interleaved steps)
--   Prepull                   src/prepull.rs: Layers (the digests of a manifest), Manifests
--                             (fetch_manifest), Blobs (pull_blob), Images (pull_image), Charts
--                             (prepull_charts), and Run (run_pre_pull)
--   Server                    src/server.rs: the paths of get_v2_wrapper and head_v2_wrapper, and
--                             Startup (the cache, the clients and the tasks of start_server)
--   Helm                      get_chart of src/helm/chart.rs
--   Config                    src/config.rs, and Overrides (apply_env_overrides)
--   Service                   PulldService of src/lib.rs
--
-- State is passed explicitly: `Cached` is the disk and the object store, `Proxy` adds the clients,
-- the tokens, and the updates of statistics and the events of a request. A Rust `Result` is `Result`, with
-- the variants of `DockerProxyError` but not the texts of its messages; a panic that a path of the
-- code has is a constructor.
--
-- Texts are lists of code points, and bytes are numbers; where the code writes a text to a file the
-- text is of ASCII characters, which are its bytes. Integers are natural numbers, with the modulus
-- of the code's type written out where a sum can reach it. Floating-point numbers are an interface.
--
-- What comes from outside is a parameter: the network says which requests end how and in which
-- order, the disk says which calls fail, the object store, the server of tokens, the hash function,
-- JSON, YAML and Unicode's lower case are interfaces, and the clock is read from an argument.
-- A chunk of a download that cannot be written leaves none of its bytes in the file.
--
-- Fuel: the removal of a repeated prefix, the digits of a number and the parts of an upload recurse
-- on the length of the text, on the number and on the length of the content, which each step makes
-- smaller by one at least. The wait for a healthy server has a round more than its 15 seconds have
-- pauses of 200 milliseconds, and one for the end. All else is by structural recursion.
--
-- Concurrency: the order in which mirrors answer is given by the network, and the calls and tasks of
-- download_with_dedupe are a step relation whose steps interleave in any order; requests to the
-- handlers, and the images, layers and charts of a pre-pull, are modelled one at a time.
--
-- Not modelled: serde's reading of the configuration, the index of helm charts, certificates, the DNS
-- resolver, and the texts of logs and errors; the TLS server, the router and the command line are
-- glue of libraries, and so are the singleton of the service and its spawning of the pre-pull.
pub mod Base
pub mod Text
pub mod Json
pub mod Admission
pub mod Registry
pub mod Cache
pub mod Server
pub mod Prepull
pub mod Service
pub mod Config
pub mod Helm
