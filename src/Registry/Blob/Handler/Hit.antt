-- ===== src/Registry/Blob/Handler/Hit.antt =====
-- When `get_blob` answers from the cache, and what it does with the client's range when it does not.
use pulld.Base.{
  ◌++◌, ◌∷◌, [], ℕ, suc, ◌+◌, ◌-◌, ◌≤◌, ◌<◌, ◌≡◌, refl, sym, ap, subst, ◌∙◌, false, ◌||◌, Option,
  none, some, ◌>>=◌, is_none, is_empty, ok, arith, length, take, unwrap_or, Option-cases, inl, inr,
}
use pulld.Text.{Text, text}
use pulld.Text.Numbers.{to_text}
use pulld.Json.{Json}
use pulld.Cache.{CacheStorage, filesystem}
use pulld.Cache.Disk.{Bytes, ObjectStore, find_file}
use pulld.Cache.Keys.{blob_path}
use pulld.Cache.Blobs.{BlobByteRange, CachedBlob, range_of, open_blob, blob_size}
use pulld.Cache.Blobs.Ranges.{slice, range_of-within, IsEnd, range_of-IsEnd}
use pulld.Cache.Blobs.Reads.{
  misses, whole_blob, part_blob, open_content, open_content-range, open_content-none,
  open_blob-open_content,
}
use pulld.Registry.Http.{Headers, header_text}
use pulld.Registry.Stats.{Float}
use pulld.Registry.Events.{PullEvent}
use pulld.Registry.Blob.{Reply, content, parse_range_header, hit_reply}
use pulld.Registry.Blob.Handler.{World, Proxy, recorded, hit_event, fetch_missed, get_blob}

-- The range that a client asks for.
abbrev pub range_asked : Headers → Option BlobByteRange
range_asked headers = do parse_range_header (← header_text headers (text "range"))

-- The reply from the cache with the bytes of a blob, without a range or with one.
abbrev pub HitReply : Bytes → Option BlobByteRange → Reply → Type 0
HitReply bytes none reply = reply ≡ record {
  status = 200;
  headers =
      (text "Content-Type", text "application/octet-stream")
      ∷ (text "Content-Length", to_text (length bytes))
      ∷ (text "X-Cache", text "HIT")
      ∷ [];
  body = content bytes;
}
HitReply bytes (some r) reply =
    (last : ℕ) × IsEnd (length bytes) r.end last
    × (r.start ≤ last)
    × (last < length bytes)
    × (reply ≡ record {
      status = 206;
      headers =
          (text "Content-Type", text "application/octet-stream")
          ∷ (text "Content-Length", to_text (last + 1 - r.start))
          ∷ (text "X-Cache", text "HIT")
          ∷ (
            text "Content-Range",
            text "bytes "
                ++ to_text r.start
                ++ text "-"
                ++ to_text last
                ++ text "/"
                ++ to_text (length bytes),
          )
          ∷ [];
      body = content (slice r.start last bytes);
    })

-- The event of a hit, for the image's name with the digest, with the reply's status.
abbrev pub IsHitEvent : Text → Text → Text → PullEvent → Type 0
IsHitEvent image digest status event =
    (event.event ≡ text "pulld_image_blob_cache_hit")
    × (event.image ≡ image)
    × (event.method ≡ some (text "GET"))
    × (event.digest ≡ some digest)
    × (event.status ≡ some status)
    × (event.cache ≡ some (text "HIT"))

take-whole : (xs : Bytes) → take (length xs) xs ≡ xs
take-whole [] = refl
take-whole (x ∷ xs) = ap (λ ys. x ∷ ys) (take-whole xs)

-- The number of the bytes from a first position to a last one, as the code has it.
count_between : (first last : ℕ) → first ≤ last → last - first + 1 ≡ last + 1 - first
count_between first last h = omega arith

hit_reply-whole :
    (b : ℕ) (bytes : Bytes) → HitReply (b ∷ bytes) none (hit_reply (whole_blob (b ∷ bytes)))
unfolding hit_reply
hit_reply-whole b bytes =
    let count : suc (length bytes) - 1 - 0 + 1 ≡ suc (length bytes) = omega arith in
    let whole : take (suc (length bytes) - 0) (b ∷ bytes) ≡ b ∷ bytes =
      ap (λ n. take n (b ∷ bytes)) {x = suc (length bytes) - 0} {y = suc (length bytes)}
        (omega arith)
      ∙ take-whole (b ∷ bytes) in
    rw (hit_reply, count, whole) refl

hit_reply-part :
    (r : BlobByteRange) (bytes : Bytes) (p : ℕ × ℕ)
    → (p.0 ≡ r.start) × IsEnd (length bytes) r.end p.1
    → (p.0 ≤ p.1) × (p.1 < length bytes)
    → HitReply bytes (some r) (hit_reply (part_blob bytes p.0 p.1))
unfolding hit_reply
hit_reply-part r bytes (first, last) (starts, ends) (up, inside) = (
  last,
  ends,
  subst (λ n. n ≤ last) starts up,
  inside,
  rw (hit_reply, count_between first last up, starts) refl,
)

opened-HitReply :
    (bytes : Bytes) (range : Option BlobByteRange) (blob : CachedBlob)
    → open_content bytes range ≡ some blob
    → HitReply bytes range (hit_reply blob)
opened-HitReply [] range blob h = cc
opened-HitReply (b ∷ bytes) none blob h =
    subst (λ o. HitReply (b ∷ bytes) none (hit_reply o)) (ap (λ o. unwrap_or o blob) h)
      (hit_reply-whole b bytes)
opened-HitReply (b ∷ bytes) (some r) blob h =
    elim (Option-cases (range_of (length (b ∷ bytes)) r)) [
      | inl e ↦ absurd (cc)
      | inr (p, e) ↦
          subst (λ o. HitReply (b ∷ bytes) (some r) (hit_reply o))
            (ap (λ o. unwrap_or o blob) (sym (open_content-range b bytes r p e) ∙ h))
            (hit_reply-part r (b ∷ bytes) p (range_of-IsEnd (length (b ∷ bytes)) r p e)
              (range_of-within (length (b ∷ bytes)) r p e))
    ]

module _ (X : Float) (S : ObjectStore) (J : Json) (sha256_hex : Bytes → Text)
    (to_lowercase : Text → Text) where
  -- The outcome of `get_blob` on a hit.
  abbrev HitOutcome : World X → Text → Text → Headers → Proxy S → Bytes → Reply × Proxy S → Type 0
  HitOutcome w name digest headers p bytes outcome =
      HitReply bytes (range_asked headers) outcome.0
      × ((event : PullEvent) × IsHitEvent (name ++ b'@' ∷ digest) digest
            (w.printed.status_text outcome.0.status) event
          × (outcome.1 ≡ recorded (event ∷ []) p))

  opened_outcome :
      (c : CacheStorage) (w : World X) (name digest : Text) (headers : Headers) (p : Proxy S)
      (bytes : Bytes)
      → open_blob S c w.disk p.cached digest (range_asked headers)
        ≡ ok (open_content bytes (range_asked headers))
      → is_none (open_content bytes (range_asked headers)) ≡ false
      → HitOutcome w name digest headers p bytes
          (get_blob X S J sha256_hex to_lowercase c w name digest headers p)
  unfolding get_blob
  opened_outcome c w name digest headers p bytes e n =
      elim (Option-cases (open_content bytes (range_asked headers))) [
        | inl missed ↦ absurd (cc)
        | inr (blob, opens) ↦
            let event =
              hit_event X S J sha256_hex to_lowercase c w (name ++ b'@' ∷ digest) digest blob in
            let same : get_blob X S J sha256_hex to_lowercase c w name digest headers p
                ≡ (hit_reply blob, recorded (event ∷ []) p) =
              rw (get_blob, e, opens) refl in
            subst (HitOutcome w name digest headers p bytes) (sym same) (
              opened-HitReply bytes (range_asked headers) blob opens,
              (event, (refl, refl, refl, refl, refl, refl), refl),
            )
      ]

  -- A blob that is on disk, can be read and is not empty is answered from there if the client's range
  -- has a byte of it. Without a range the reply has status 200 and the whole blob; with one it has
  -- status 206 and the bytes from the range's start to its end, or to the blob's last where the range
  -- has no end or one behind the blob, which it names with the blob's size. Nothing changes but for
  -- the event of a hit, which names the image, the digest and the reply's status.
  pub get_blob-hit :
      (c : CacheStorage) (w : World X) (name digest : Text) (headers : Headers) (p : Proxy S)
      (bytes : Bytes) (modified : ℕ)
      → c.backend ≡ filesystem
      → find_file p.cached.files (blob_path c digest)
        ≡ some (record { bytes = bytes; modified = modified })
      → w.disk.read_fails (blob_path c digest) ≡ false
      → (is_empty bytes || misses bytes (range_asked headers)) ≡ false
      → let (reply, after) = get_blob X S J sha256_hex to_lowercase c w name digest headers p in
        HitReply bytes (range_asked headers) reply
        × ((event : PullEvent) × IsHitEvent
              (name ++ b'@' ∷ digest)
              digest
              (w.printed.status_text reply.status)
              event
            × (after ≡ recorded (event ∷ []) p))
  get_blob-hit c w name digest headers p bytes modified b f r some_byte =
      opened_outcome c w name digest headers p bytes
        (open_blob-open_content S c w.disk p.cached digest (range_asked headers) bytes modified b f
          r)
        (open_content-none bytes (range_asked headers) ∙ some_byte)

  missing_reply :
      (c : CacheStorage) (w : World X) (name digest : Text) (headers : Headers) (p : Proxy S)
      → blob_size S c p.cached digest ≡ none
      → get_blob X S J sha256_hex to_lowercase c w name digest headers p
        ≡ fetch_missed X S J sha256_hex to_lowercase c w name digest p
  unfolding get_blob open_blob
  missing_reply c w name digest headers p h = rw (get_blob, open_blob, h) refl

  -- A blob that the cache has not is answered in one way to all clients: the range that a client asks
  -- for is passed over.
  pub get_blob-miss :
      (c : CacheStorage) (w : World X) (name digest : Text) (headers others : Headers) (p : Proxy S)
      → blob_size S c p.cached digest ≡ none
      → get_blob X S J sha256_hex to_lowercase c w name digest headers p
        ≡ get_blob X S J sha256_hex to_lowercase c w name digest others p
  get_blob-miss c w name digest headers others p h =
      missing_reply c w name digest headers p h ∙ sym (missing_reply c w name digest others p h)
