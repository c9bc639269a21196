-- ===== src/Server/Startup.antt =====
-- `start_server` of src/server.rs: which servers are started, and the tasks that it spawns.
use pulld.Base.{
  ℕ, zero, suc, Bool, true, false, ◌&&◌, ◌||◌, not, Option, none, some, is_some, unwrap_or, List,
  [], ◌∷◌, ◌++◌, all, length, is_empty, if◌then◌else◌, DockerProxyError, Result, ok, err,
}
use pulld.Text.{Text}
use pulld.Text.Numbers.{to_text}
use pulld.Cache.{CacheStorage, with_max_size, with_object_store}
use pulld.Config.{Config, ServerConfig, TlsConfig, CacheConfig, filesystem, s3}
use pulld.Registry.Upstreams.{Registries}
use pulld.Registry.Upstreams.Configured.{make_clients}

-- The cache of the configured backend; `dirs` says whether its directories can be made, and
-- `store_made` whether the client of S3 can be built.
unfoldable pub make_cache : Bool → Bool → Text → CacheConfig → Result CacheStorage
unfolding with_max_size with_object_store
make_cache dirs store_made cache_dir cache = elim cache.backend [
  | filesystem ↦
      if dirs
      then ok (with_max_size cache_dir (some cache.max_size_gb))
      else err DockerProxyError.cache
  | s3 ↦ elim cache.s3_config [
    | none ↦ err DockerProxyError.config
    | some s3_config ↦
        if store_made && dirs
        then ok (with_object_store cache_dir s3_config.prefix (some cache.max_size_gb))
        else err DockerProxyError.cache
  ]
]

unfoldable pub should_start_https : ServerConfig → Option Text → Bool
should_start_https config server_cert_pem = elim config.tls [
  | none ↦ false
  | some tls ↦ tls.enabled && (is_some server_cert_pem || not (is_empty tls.cert_path))
]

unfoldable pub should_start_http : ServerConfig → Option Text → Bool
unfolding should_start_https
should_start_http config server_cert_pem =
    if should_start_https config server_cert_pem then is_some config.http_port else true

abbrev pub address : ServerConfig → ℕ → Text
address config port = config.bind_address ++ b':' ∷ to_text port

abbrev pub https_address : ServerConfig → Text
https_address config = address config config.port

abbrev pub http_address : ServerConfig → Text
http_address config = address config (unwrap_or config.http_port config.port)

-- What a task does: it serves an address, or it waits for the tasks at some places to end.
pub data Work : Type 0 where
  serves_https : Text → Work
  serves_http : Text → Work
  waits : List ℕ → Work

-- A task runs on, or it has ended.
pub record Task : Type 0 where
  pub work : Work
  pub running : Bool

-- What the tasks meet: whether an address can be bound, beside the tasks that there are, and whether
-- a TLS configuration can be made, of certificates in PEM and of files.
pub record Host : Type 0 where
  pub binds : List Task → Text → Bool
  pub accepts_pem : Text → Text → Bool
  pub accepts_files : TlsConfig → Bool

-- `tokio::spawn`: the place of the new task is its handle.
abbrev pub spawn : Work → Bool → List Task → ℕ × List Task
spawn work running tasks = (length tasks, tasks ++ record { work = work; running = running } ∷ [])

-- `JoinHandle::abort`: the task alone is ended, and goes on with nothing.
unfoldable pub abort : ℕ → List Task → List Task
abort i [] = []
abort zero (task ∷ tasks) = record task { running = false } ∷ tasks
abort (suc i) (task ∷ tasks) = task ∷ abort i tasks

abbrev pub tls_made : Host → ServerConfig → Option Text → Option Text → Bool
tls_made host config (some cert_pem) (some key_pem) = host.accepts_pem cert_pem key_pem
tls_made host config cert_pem key_pem = elim config.tls [
  | none ↦ false
  | some tls ↦ not (is_empty tls.cert_path || is_empty tls.key_path) && host.accepts_files tls
]

-- The handles of the servers that are started.
unfoldable pub spawn_https :
    Host → ServerConfig → Option Text → Option Text → List Task → List ℕ × List Task
unfolding should_start_https to_text
spawn_https host config cert_pem key_pem tasks =
    if should_start_https config cert_pem
    then (let (i, tasks') =
          spawn (serves_https (https_address config))
            (host.binds tasks (https_address config) && tls_made host config cert_pem key_pem)
            tasks in
        (i ∷ [], tasks'))
    else ([], tasks)

unfoldable pub spawn_http : Host → ServerConfig → Option Text → List Task → List ℕ × List Task
unfolding should_start_http to_text
spawn_http host config cert_pem tasks =
    if should_start_http config cert_pem
    then (let (i, tasks') =
          spawn (serves_http (http_address config)) (host.binds tasks (http_address config))
            tasks in
        (i ∷ [], tasks'))
    else ([], tasks)

abbrev pub runs_at : List Task → ℕ → Bool
runs_at [] i = false
runs_at (task ∷ tasks) zero = task.running
runs_at (task ∷ tasks) (suc i) = runs_at tasks i

-- The handle of the task that waits for the servers: it ends with the first of them, or at once if
-- there are none.
unfoldable pub spawn_servers :
    Host → ServerConfig → Option Text → Option Text → List Task → ℕ × List Task
unfolding spawn_https spawn_http
spawn_servers host config cert_pem key_pem tasks =
    let (https, tasks1) = spawn_https host config cert_pem key_pem tasks in
    let (http, tasks2) = spawn_http host config cert_pem tasks1 in
    spawn (waits (https ++ http))
      (not (is_empty (https ++ http)) && all (runs_at tasks2) (https ++ http)) tasks2

-- `settings` has the configurations of the registries. What else the state of the handlers has is
-- not modelled.
unfoldable pub start_server :
    Host
    → Bool
    → Bool
    → Text
    → Registries
    → Config
    → Option Text
    → Option Text
    → List Task
    → Result ℕ × List Task
unfolding make_cache make_clients spawn_servers
start_server host dirs store_made cache_dir settings config cert_pem key_pem tasks =
    elim (make_cache dirs store_made cache_dir config.cache) [
      | err e ↦ (err e, tasks)
      | ok cache ↦ elim (make_clients settings) [
        | none ↦ (err DockerProxyError.http, tasks)
        | some clients ↦
            let (handle, tasks') = spawn_servers host config.server cert_pem key_pem tasks in
            (ok handle, tasks')
      ]
    ]
