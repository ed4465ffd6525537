-- ===== src/Server.antt =====
-- The server put together: the pipeline of src/engine.rs, whose verdicts are those of the validator of
-- src/dnssec.rs over the keys that earlier validations left, with what its resolver finds at the time,
-- and the file of src/cache.rs that is written now and then and read at the start in src/main.rs.
pub mod Backed
pub mod Genuine
use rust_encrypted_dns_serve.Base.{ℕ, ◌≡◌, Bool, Option, some, List, [], ◌∷◌, ◌++◌, Bytes, bytes_eq}
use rust_encrypted_dns_serve.Base.Map.{Map}
use rust_encrypted_dns_serve.Wire.Ip.{IpAddr}
use rust_encrypted_dns_serve.Wire.Names.{NameOps}
use rust_encrypted_dns_serve.Wire.Messages.{RData, Message}
use rust_encrypted_dns_serve.Dnssec.Status.{default_budget}
use rust_encrypted_dns_serve.Dnssec.Signing.{Crypto}
use rust_encrypted_dns_serve.Dnssec.Validation.{Verdict, validate_message}
use rust_encrypted_dns_serve.Dnssec.Zones.{Validator}
use rust_encrypted_dns_serve.Cache.{CacheEntry, load_cache, save_cache}
use rust_encrypted_dns_serve.Cache.Persist.{stored}
use rust_encrypted_dns_serve.RateLimit.{Protocol, cleanup, new}
use rust_encrypted_dns_serve.Engine.{Env, Job, Reply, process_dns_query, revalidate}
use rust_encrypted_dns_serve.Engine.System.{System, spawn}
use rust_encrypted_dns_serve.Startup.Preload.{warm}

pub record Server (Name : Type 0) : Type 0 where
  pub system : System Name
  pub validator : Validator
  pub disk : Option (Map Bytes (Option CacheEntry))

-- The resolver that a task of the server asks.
abbrev pub Resolve : Type 0 → Type 0
Resolve Name = Name → ℕ → Option (Message Name)

module _ {Name : Type 0} (N : NameOps Name) (C : Crypto Name)
    (read_dname : RData Name → Option Name) where
  -- `validate_message`: each call has a budget of its own.
  unfoldable pub judge : Resolve Name → ℕ → Message Name → Name → ℕ → Validator → Verdict
  judge resolve now msg qname qtype v =
      validate_message N C resolve read_dname now msg qname qtype
        (record v { work = record (v.work) { budget = default_budget } })

module _ {Name : Type 0} (N : NameOps Name) (C : Crypto Name)
    (read_dname : RData Name → Option Name) (E : Env Name) where
  -- The codec of `E`, with a resolver and the validator as it stands.
  abbrev pub env : Resolve Name → ℕ → Validator → Env Name
  env resolve now v = record E {
    resolve = resolve;
    validate = λ msg qname qtype. (judge N C read_dname resolve now msg qname qtype v).0;
  }

  abbrev after_reply : System Name → Reply Name → System Name
  after_reply s r = record { app = r.state; jobs = spawn r.spawned s.jobs }

  -- What a task does to the pipeline and what its validation does to the validator are two steps,
  -- with any others between them. A save that fails leaves the file, as no step does, and the server
  -- may stop and start again at any time.
  pub data Step (s : Server Name) : Server Name → Type 0 where
    query :
        (resolve : Resolve Name) (p : Protocol) (ip : IpAddr) (now_ms now : ℕ) (wire : Bytes)
        → Step s (record s {
          system =
              after_reply s.system
                (process_dns_query (env resolve now s.validator) s.system.app p ip now_ms now wire);
        })
    finish :
        (resolve : Resolve Name) (now : ℕ) (before : List (Job Name)) (job : Job Name)
        (after : List (Job Name))
        → s.system.jobs ≡ before ++ (job ∷ after)
        → Step s (record s {
          system = record {
            app = revalidate (env resolve now s.validator) now job s.system.app;
            jobs = before ++ after;
          };
        })
    prune :
        (now_ms max_age : ℕ)
        → Step s (record s {
          system = record (s.system) {
            app = record (s.system.app) {
              rate_limiter = cleanup now_ms max_age s.system.app.rate_limiter;
            };
          };
        })
    preload :
        (resolve : Resolve Name) (now : ℕ) (name : Name) (qtype : ℕ)
        → Step s (record s {
          system = record (s.system) {
            app = record (s.system.app) {
              cache = warm (env resolve now s.validator) now name qtype s.system.app.cache;
            };
          };
        })
    learn :
        (resolve : Resolve Name) (now : ℕ) (msg : Message Name) (qname : Name) (qtype : ℕ)
        → Step s (record s {
          validator = (judge N C read_dname resolve now msg qname qtype s.validator).1;
        })
    save :
        (now : ℕ)
        → Step s (record s { disk = some (stored (save_cache now E.max_stale s.system.app.cache)) })
    restart :
        (now capacity refill_per_sec : ℕ) (dnssec_enforce : Bool)
        → Step s (record {
          system = record {
            app = record {
              cache = (load_cache now E.max_stale s.disk []).cache;
              rate_limiter = new capacity refill_per_sec;
              dnssec_enforce = dnssec_enforce;
              in_flight = [];
            };
            jobs = [];
          };
          validator = record {
            work = record { budget = default_budget; key_cache = [] };
            zones = [];
          };
          disk = s.disk;
        })

  pub data Run (s : Server Name) : Server Name → Type 0 where
    start : Run s s
    next : {t u : Server Name} → Run s t → Step t u → Run s u
