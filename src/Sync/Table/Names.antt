-- ===== src/Sync/Table/Names.antt =====
-- What an id in use names.
use sasha_jakob.Base.{ℕ, ◌<◌, ◌≡◌, ◌≢◌, some, Option, arith, get_elem?, ℤ, pos, negsuc}
use sasha_jakob.Links.{null}
use sasha_jakob.Kernel.{Kernel, SyncType}
use sasha_jakob.Sync.Table.{max_syncs, get_check_sync}

-- `id` names the sync object `sync`, whose tag is `type` and which points to `o`.
pub record Names (k : Kernel) (id sync : ℕ) (type : SyncType) (o : ℕ) : Type 0 where
  pub small : id < max_syncs
  pub entry : get_elem? k.sync_table id ≡ some sync
  pub real : sync ≢ null
  pub object : k.sync_objs sync ≡ some (record { type = type; id = pos id; object = o })

-- GetCheckSync finds the object of an id whatever type is expected.
pub get_check_sync-Names :
    {k : Kernel} {id sync o : ℕ} {type : SyncType} (expected : SyncType)
    → Names k id sync type o
    → get_check_sync (pos id) expected k ≡ some (some sync, k)
unfolding get_check_sync
get_check_sync-Names expected n = ground (arith, n.small, n.entry, n.real, n.object)

-- The check changes nothing, and what it returns does not depend on the type.
pub get_check_sync-state :
    (id : ℤ) (expected other : SyncType) (k s : Kernel) (found : Option ℕ)
    → get_check_sync id expected k ≡ some (found, s)
    → get_check_sync id other k ≡ some (found, k)
unfolding get_check_sync
get_check_sync-state (negsuc n) expected other k s found e = ground (arith, e)
get_check_sync-state (pos n) expected other k s found e = ground (arith, e)
