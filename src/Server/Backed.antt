-- ===== src/Server/Backed.antt =====
-- What stands behind the entries of the cache, over any run of the server (src/engine.rs,
-- src/dnssec.rs, src/main.rs).
use mathlib.Core.Path.{subst}
use rust_encrypted_dns_serve.Base.{
  ℕ, ◌≡◌, refl, ap, ◌∙◌, inl, inr, Option, none, some, List, [], ◌∷◌, ◌++◌, Bytes, bytes_eq, All,
}
use rust_encrypted_dns_serve.Wire.Names.{NameOps}
use rust_encrypted_dns_serve.Wire.Messages.{RData, Message}
use rust_encrypted_dns_serve.Dnssec.Status.{secure, default_budget}
use rust_encrypted_dns_serve.Dnssec.Signing.{Crypto}
use rust_encrypted_dns_serve.Dnssec.Zones.{Validator}
use rust_encrypted_dns_serve.Dnssec.Authentic.{AllAuthentic}
use rust_encrypted_dns_serve.Dnssec.Judged.{SecuredMessage, validate_message_lem}
use rust_encrypted_dns_serve.Cache.{CacheEntry}
use rust_encrypted_dns_serve.Cache.Carried.{OnDisk, save_cache-OnDisk, load_cache-Has}
use rust_encrypted_dns_serve.Engine.{AppState, Env, Job, cache_key, process_dns_query}
use rust_encrypted_dns_serve.Engine.Kept.{
  SameRecords, Keeper, process-Kept, revalidate-Kept, warm-Kept,
}
use rust_encrypted_dns_serve.Engine.Ttl.{calculate_cache_ttl}
use rust_encrypted_dns_serve.Engine.System.{spawn, Spawns, process-Spawns}
use rust_encrypted_dns_serve.Server.{
  Server, Resolve, judge, env, Step, query, finish, prune, preload, learn, save, restart, Run,
  start, next,
}

module _ {Name : Type 0} (N : NameOps Name) (C : Crypto Name)
    (read_dname : RData Name → Option Name) where
  -- The evidence for a message at a time, with whatever the resolver found then.
  abbrev pub Evident : Message Name → Name → ℕ → ℕ → Type 0
  Evident msg n t at = (resolve : Resolve Name) × SecuredMessage N C resolve read_dname at msg n t

  pub judge_lem :
      (resolve : Resolve Name) (now : ℕ) (msg : Message Name) (n : Name) (t : ℕ) (v : Validator)
      → AllAuthentic N C v.work.key_cache
      → let x = judge N C read_dname resolve now msg n t v in
        AllAuthentic N C x.1.work.key_cache × (x.0 ≡ secure → Evident msg n t now)
  unfolding judge
  judge_lem resolve now msg n t v a =
      let (a', within, good) =
        validate_message_lem N C resolve read_dname now msg n t
          (record v { work = record (v.work) { budget = default_budget } }) a refl in
      (a', λ e. (resolve, good e))

module _ {Name : Type 0} (N : NameOps Name) (C : Crypto Name)
    (read_dname : RData Name → Option Name) (E : Env Name) where
  abbrev KeyOf : Bytes → Name → ℕ → Type 0
  KeyOf k n t = k ≡ cache_key E n t

  -- A Secure entry holds the encoding of a message that has the records of one that was secured, for a
  -- question with this key, when the entry was stored.
  abbrev pub IsBacked : Bytes → CacheEntry → Type 0
  IsBacked k e =
      e.dnssec_status ≡ secure
      → (n : Name) × (t : ℕ) × (msg : Message Name) × (copy : Message Name) × KeyOf k n t
        × (E.to_bytes copy ≡ some e.raw_wire)
        × SameRecords copy msg
        × (e.min_ttl ≡ calculate_cache_ttl copy secure e.cached_at)
        × Evident N C read_dname msg n t e.cached_at

  abbrev JobKeyed : Job Name → Type 0
  JobKeyed j = KeyOf j.key j.qname j.qtype

  pub record IsSound (s : Server Name) : Type 0 where
    pub entries : All (λ x. IsBacked x.0 x.1) s.system.app.cache
    pub jobs : All JobKeyed s.system.jobs
    pub keys : AllAuthentic N C s.validator.work.key_cache
    pub saved : OnDisk IsBacked s.disk

  pub env-cache_key :
      (resolve : Resolve Name) (now : ℕ) (v : Validator) (n : Name) (t : ℕ)
      → cache_key (env N C read_dname E resolve now v) n t ≡ cache_key E n t
  unfolding cache_key
  env-cache_key resolve now v n t = refl

  backed :
      (resolve : Resolve Name) (now : ℕ) (v : Validator)
      → AllAuthentic N C v.work.key_cache
      → Keeper (env N C read_dname E resolve now v) now KeyOf IsBacked
  backed resolve now v a = record {
    keyed = env-cache_key resolve now v;
    stored = λ k n t m m' status w key r judged cacheable same b s. (
      n,
      t,
      m,
      m',
      key,
      b,
      same,
      ap (λ x. calculate_cache_ttl m' x now) s,
      (judge_lem N C read_dname resolve now m n t v a).1 (judged ∙ s),
    );
    touched = λ k e h. h;
  }

  spawn-JobKeyed :
      (resolve : Resolve Name) (now : ℕ) (v : Validator) (st st' : AppState) (o : Option (Job Name))
      (js : List (Job Name))
      → Spawns (env N C read_dname E resolve now v) st st' o
      → All JobKeyed js
      → All JobKeyed (spawn o js)
  spawn-JobKeyed resolve now v st st' none js h a = a
  spawn-JobKeyed resolve now v st st' (some i) js (inl (o, same)) a = absurd cc
  spawn-JobKeyed resolve now v st st' (some i) js (inr (j, o, keyed, free, marked)) a =
      let same : j ≡ i = cc in
      (subst JobKeyed same (keyed ∙ env-cache_key resolve now v j.qname j.qtype), a)

  All-without {ℓ} :
      {A : Type ℓ}
      → (P : A → Type 0) (x : A) (xs ys : List A) → All P (xs ++ (x ∷ ys))
      → P x × All P (xs ++ ys)
  All-without P x [] ys h = h
  All-without P x (y ∷ xs) ys h = let (p, rest) = All-without P x xs ys h.1 in (p, (h.0, rest))

  Step-IsSound : {s t : Server Name} → Step N C read_dname E s t → IsSound s → IsSound t
  Step-IsSound {s} (query resolve p ip now_ms now wire) h =
      let v = s.validator in
      let F = env N C read_dname E resolve now v in
      let r = process_dns_query F s.system.app p ip now_ms now wire in
      record {
        entries =
            process-Kept F now (backed resolve now v h.keys) s.system.app p ip now_ms wire
              h.entries;
        jobs =
            spawn-JobKeyed resolve now v s.system.app r.state r.spawned s.system.jobs
              (process-Spawns F s.system.app p ip now_ms now wire) h.jobs;
        keys = h.keys;
        saved = h.saved;
      }
  Step-IsSound {s} (finish resolve now before job after e) h =
      let v = s.validator in
      let F = env N C read_dname E resolve now v in
      let (key, rest) = All-without JobKeyed job before after (subst (All JobKeyed) e h.jobs) in
      record {
        entries =
            revalidate-Kept F now (backed resolve now v h.keys) job s.system.app key h.entries;
        jobs = rest;
        keys = h.keys;
        saved = h.saved;
      }
  Step-IsSound {s} (prune now_ms max_age) h = record {
    entries = h.entries;
    jobs = h.jobs;
    keys = h.keys;
    saved = h.saved;
  }
  Step-IsSound {s} (preload resolve now n t) h = record {
    entries =
        warm-Kept (env N C read_dname E resolve now s.validator) now
          (backed resolve now s.validator h.keys) n t s.system.app.cache h.entries;
    jobs = h.jobs;
    keys = h.keys;
    saved = h.saved;
  }
  Step-IsSound {s} (learn resolve now msg n t) h = record {
    entries = h.entries;
    jobs = h.jobs;
    keys = (judge_lem N C read_dname resolve now msg n t s.validator h.keys).0;
    saved = h.saved;
  }
  Step-IsSound {s} (save now) h = record {
    entries = h.entries;
    jobs = h.jobs;
    keys = h.keys;
    saved = save_cache-OnDisk IsBacked now E.max_stale s.system.app.cache h.entries;
  }
  Step-IsSound {s} (restart now capacity refill_per_sec dnssec_enforce) h = record {
    entries = load_cache-Has IsBacked now E.max_stale s.disk [] h.saved tt;
    jobs = tt;
    keys = λ k c gone. cc;
    saved = h.saved;
  }

  pub Run-IsSound : {s t : Server Name} → IsSound s → Run N C read_dname E s t → IsSound t
  Run-IsSound h start = h
  Run-IsSound h (next r step) = Step-IsSound step (Run-IsSound h r)
