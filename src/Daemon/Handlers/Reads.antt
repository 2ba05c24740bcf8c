-- ===== src/Daemon/Handlers/Reads.antt =====
-- The metadata handlers that read an entry, against their promise. The handlers are in
-- src/daemon/handler/srv_metadata.cpp.
use gekko_fs.Base.{ℕ, ◌≡◌, refl, ap, ◌∙◌, [], Option, none, some}
use gekko_fs.Base.Eq.{Bytes, bytes_eq}
use gekko_fs.Common.Metadata.{Metadata, Config, parse}
use gekko_fs.Common.Metadata.RoundTrip.{kept, parse-serialize}
use gekko_fs.Daemon.Results.{not_found, Result, ok, err, then_run, return, finish}
use gekko_fs.Daemon.Store.{Lookup, RocksDb}
use gekko_fs.Daemon.Store.Merges.{InRange, text_of}
use gekko_fs.Daemon.Store.Backend.{Store, get_impl, after_get, status_of}
use gekko_fs.Daemon.Store.Files.{lift, get_str, get, get_size}
use gekko_fs.Daemon.Handlers.{read_failed, rpc_srv_stat, rpc_srv_get_metadentry_size}
use gekko_fs.Daemon.Handlers.Spec.{stat_of, size_of}

module _ {c : Config} (rdb : RocksDb c) where
  -- A value that was found, as a result.
  get_impl-found :
      (s : Store rdb) (k : Bytes) (o : Option Metadata)
      → rdb.get_value k s.db ≡ text_of c o
      → get_impl rdb k s ≡ (status_of rdb (text_of c o), after_get rdb k s)
  unfolding get_impl
  get_impl-found s k o h = ap (λ (v : Lookup). (status_of rdb v, after_get rdb k s)) h

  pub stat-by :
      (s : Store rdb) (k : Bytes) (o : Option Metadata)
      → rdb.get_value k s.db ≡ text_of c o
      → rpc_srv_stat rdb k s ≡ (stat_of c o, after_get rdb k s)
  unfolding rpc_srv_stat get_str
  stat-by s k none h =
      ap (finish (λ (v : Bytes). (0, v)) (λ e. (read_failed e, []))) (get_impl-found s k none h)
  stat-by s k (some md) h =
      ap (finish (λ (v : Bytes). (0, v)) (λ e. (read_failed e, [])))
        (get_impl-found s k (some md) h)

  abbrev pub gotten : Option Metadata → Result Metadata
  gotten none = err not_found
  gotten (some md) = ok (kept c md)

  pub get-found :
      (s : Store rdb) (k : Bytes) (o : Option Metadata)
      → rdb.get_value k s.db ≡ text_of c o
      → InRange o
      → get rdb k s ≡ (gotten o, after_get rdb k s)
  unfolding get get_str
  get-found s k none h range =
      ap (λ (r : Result Bytes × Store rdb). then_run r (λ v. lift rdb (parse c v)))
        (get_impl-found s k none h)
  get-found s k (some md) h range =
      ap (λ (r : Result Bytes × Store rdb). then_run r (λ v. lift rdb (parse c v)))
        (get_impl-found s k (some md) h)
      ∙ ap (λ (p : Option Metadata). lift rdb p (after_get rdb k s)) (parse-serialize c md range)

  pub size-by :
      (s : Store rdb) (k : Bytes) (o : Option Metadata)
      → rdb.get_value k s.db ≡ text_of c o
      → InRange o
      → rpc_srv_get_metadentry_size rdb k s ≡ (size_of o, after_get rdb k s)
  unfolding rpc_srv_get_metadentry_size get_size
  size-by s k o h range =
      ap
        (λ (r : Result Metadata × Store rdb).
          finish (λ (n : ℕ). (0, n)) (λ e. (read_failed e, 0)) (then_run r (λ md. return md.size)))
        (get-found s k o h range)
      ∙ ends o
    where
      ends :
          (o' : Option Metadata)
          → finish
              (λ (n : ℕ). (0, n))
              (λ e. (read_failed e, 0))
              (then_run (gotten o', after_get rdb k s) (λ md. return md.size))
            ≡ (size_of o', after_get rdb k s)
      ends none = refl
      ends (some md) = refl
