-- ===== src/Doppler/Freshness.antt =====
-- The cache of src/secrets/doppler.py.
use litellm_control_plane.Common.{
  ℕ, String, Option, none, some, List, ◌∷◌, ◌+◌, ◌<◌, ◌≡◌, refl, ◌⊎◌, inl, inr, Option-cases, arith,
  ap, sym, ◌∙◌, subst, eq_refl, suc,
}
use litellm_control_plane.Process.{CacheEntry}
use litellm_control_plane.World.{
  World, returned, raise, or_else, pure, ◌>>=◌, utc_now, send, set_process,
}
use litellm_control_plane.World.Runs.{bind-Passes, returned_injective}
use litellm_control_plane.Doppler.{
  Resolver, Download, get_secrets_with_cache, refresh, download_request, unexpired, read_download,
  fetch_secrets_from_doppler,
}

-- The secrets of `entry`, which is in the cache of `w'`, are not older than the time to live.
pub record IsFresh (self : Resolver) (token : String) (secrets : List (String × String))
    (w w' : World) : Type 0 where
  pub entry : CacheEntry
  pub stored : w'.process.cache (self.sha256 token) ≡ some entry
  pub same : entry.secrets ≡ secrets
  pub age :
      ((w.clock w.readings < entry.fetch_time + self.cache_ttl)
        × (w'.process.sent ≡ w.process.sent))
      ⊎ ((entry.fetch_time ≡ w.clock w.readings)
          × (w'.process.sent ≡ download_request self token ∷ w.process.sent))

read_download-world : (d : Download) (w : World) → (read_download d w).1 ≡ w
unfolding read_download raise pure or_else
read_download-world Download.broken w = refl
read_download-world (Download.response code none) w = ground arith
read_download-world (Download.response code (some s)) w = ground arith

-- What a fetch leaves.
record Fetched (self : Resolver) (now : ℕ) (token : String) (secrets : List (String × String))
    (w w' : World) : Type 0 where
  pub cached :
      w'.process.cache (self.sha256 token) ≡ some (record { fetch_time = now; secrets = secrets })
  pub sent : w'.process.sent ≡ download_request self token ∷ w.process.sent

fetched_world :
    (self : Resolver) (token : String) (w : World)
    → (fetch_secrets_from_doppler self token w).1 ≡ record w {
      process = record w.process { sent = download_request self token ∷ w.process.sent };
    }
unfolding fetch_secrets_from_doppler send ◌>>=◌
fetched_world self token w = read_download-world _ _

refresh-Fetched :
    (self : Resolver) (now : ℕ) (token : String) (secrets : List (String × String)) (w : World)
    → (refresh self now token w).0 ≡ returned secrets
    → Fetched self now token secrets w (refresh self now token w).1
unfolding refresh ◌>>=◌ set_process
refresh-Fetched self now token secrets w h =
    let p = bind-Passes (fetch_secrets_from_doppler self token) _ w secrets h in
    let same : p.value ≡ secrets = returned_injective (ap (λ m. m.0) (sym p.whole) ∙ h) in
    rw (p.whole, fetched_world self token w, same)
      (record { cached = rw (eq_refl (self.sha256 token)) refl; sent = refl })

-- `secrets` are those of an entry that has not expired.
unexpired_entry :
    (self : Resolver) (now : ℕ) (o : Option CacheEntry) (secrets : List (String × String))
    → unexpired self now o ≡ some secrets
    → (entry : CacheEntry) × (o ≡ some entry)
      × (entry.secrets ≡ secrets)
      × (now < entry.fetch_time + self.cache_ttl)
unexpired_entry self now none secrets h = cc
unexpired_entry self now (some entry) secrets h = (entry, refl, ground arith, ground arith)

-- Secrets that the resolver takes for a token are those of an entry of its cache under the hash of
-- the token. Either the entry is younger than the time to live and nothing is sent, or it is of
-- this moment and one download is sent.
pub get_secrets_with_cache-IsFresh :
    (self : Resolver) (token : String) (secrets : List (String × String)) (w : World)
    → let m = get_secrets_with_cache self token w in
      m.0 ≡ returned secrets → IsFresh self token secrets w m.1
unfolding get_secrets_with_cache ◌>>=◌ utc_now
get_secrets_with_cache-IsFresh self token secrets w h =
    elim (Option-cases
      (unexpired self (w.clock w.readings) (w.process.cache (self.sha256 token)))) [
        | inl missing ↦
            let f =
              refresh-Fetched self (w.clock w.readings) token secrets
                (record w { readings = suc w.readings }) (subst returns missing h) in
            rw missing (record {
              entry = record { fetch_time = w.clock w.readings; secrets = secrets };
              stored = f.cached;
              same = refl;
              age = inr (refl, f.sent);
            })
        | inr (s, found) ↦
            let (entry, stored, same, age) =
              unexpired_entry self (w.clock w.readings) (w.process.cache (self.sha256 token)) s
                found in
            let e = returned_injective (subst returns found h) in
            rw found
              (record { entry = entry; stored = stored; same = same ∙ e; age = inl (age, refl) })
      ]
  where
    returns : Option (List (String × String)) → Type 0
    returns o =
        (or_else o (refresh self (w.clock w.readings) token) pure
          (record w { readings = suc w.readings })).0
        ≡ returned secrets
