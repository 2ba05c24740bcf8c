-- ===== src/Daemon/Handlers/Serves.antt =====
-- Any sequence of requests to the metadata handlers of src/daemon/handler/srv_metadata.cpp has the
-- replies of the map from paths to records that the store stands for.
use gekko_fs.Base.{List, [], ◌∷◌, Option, none, some}
use gekko_fs.Common.Metadata.{Metadata, Config}
use gekko_fs.Daemon.Store.{RocksDb}
use gekko_fs.Daemon.Store.Backend.{Store}
use gekko_fs.Daemon.Handlers.Spec.{Files, Request, Reply, Surroundings, serve, promise, Suits}
use gekko_fs.Daemon.Handlers.Holds.{Holds}

abbrev pub reply_before {ℓ} :
    {S : Type ℓ} → Reply → Option (List Reply × S) → Option (List Reply × S)
reply_before reply none = none
reply_before reply (some (replies, s)) = some (reply ∷ replies, s)

-- Requests one after the other, with their replies; `none` is an abort of the daemon.
unfoldable pub serve_all :
    {c : Config} (rdb : RocksDb c)
    → Surroundings
    → List Request
    → Store rdb
    → Option (List Reply × Store rdb)
serve_all rdb e [] s = some ([], s)
serve_all rdb e (r ∷ rs) s = elim (serve rdb e r s) [
  | none ↦ none
  | some (reply, s') ↦ reply_before reply (serve_all rdb e rs s')
]

unfoldable pub promise_all : Config → Surroundings → List Request → Files → List Reply × Files
promise_all c e [] files = ([], files)
promise_all c e (r ∷ rs) files =
    let (reply, files') = promise c e r files in
    let (replies, files'') = promise_all c e rs files' in (reply ∷ replies, files'')

-- Each request suits the files that it meets.
abbrev pub AllSuit : Config → Surroundings → List Request → Files → Type 0
AllSuit c e [] files = Unit
AllSuit c e (r ∷ rs) files = Suits r files × AllSuit c e rs (promise c e r files).1
