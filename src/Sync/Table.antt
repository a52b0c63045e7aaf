-- ===== src/Sync/Table.antt =====
-- sync.c: the ids, the table of synchronisation objects, and their reclaiming.
pub mod Ids
pub mod Names
use sasha_jakob.Base.{
  ℕ, zero, suc, ◌+◌, Bool, ◌||◌, true, false, Option, none, some, List, ◌==◌, if◌then◌else◌, leb,
  get_elem?, set, ℤ, pos, negsuc, suc_ℤ, pred_ℤ, ltb_ℤ, eq_ℤ, error, success, Cmd, and_then, when,
  pure, fault, ◌>>=◌, ◌>>◌, not,
}
use sasha_jakob.Links.{null, put, drop_cell, map_list, unmap_list, clear_list}
use sasha_jakob.Kernel.{
  Kernel, K, SyncObj, SyncType, pipe, lock, cvar, get, load_sync, on_links, readers, writers,
  waiters,
}

abbrev pub max_syncs : ℕ
max_syncs = 128

-- What a blocked process's call returns to its system call.
abbrev pub pcb_blocked : ℤ
pcb_blocked = pos 30

abbrev load_used : ℕ → K ℕ
load_used i k = and_then (get_elem? k.id_used i) λ v. some (v, k)

abbrev store_used : ℕ → ℕ → K (Unit {0})
store_used i v k =
    and_then (get_elem? k.id_used i) λ _. some (tt, record k { id_used = set k.id_used i v })

abbrev add_counter : (ℤ → ℤ) → K (Unit {0})
add_counter f k = pure tt (record k { global_sync_counter = f k.global_sync_counter })

-- The rounds that are left, and the index.
unfoldable pub id_loop : (left i : ℕ) → K ℤ
id_loop zero i = pure error
id_loop (suc left) i = do
  used ← load_used i
  if used == 0 then (do store_used i 1; add_counter suc_ℤ; pure (pos i)) else id_loop left (i + 1)

unfoldable pub get_new_id : K ℤ
get_new_id = id_loop max_syncs 0

release_id : ℕ → K (Unit {0})
release_id id = if leb max_syncs id then pure tt else do
  used ← load_used id
  if used == 1 then (store_used id 0 >> add_counter pred_ℤ) else pure tt

unfoldable pub free_id : ℤ → K (Unit {0})
unfolding release_id
free_id (pos id) = release_id id
free_id (negsuc _) = pure tt

-- `sync_table[id]`; a negative index is a fault.
abbrev pub load_entry : ℤ → K ℕ
load_entry (pos id) k = and_then (get_elem? k.sync_table id) λ v. some (v, k)
load_entry (negsuc _) k = none

abbrev pub store_entry : ℤ → ℕ → K (Unit {0})
store_entry (pos id) v k =
    and_then (get_elem? k.sync_table id)
      λ _. some (tt, record k { sync_table = set k.sync_table id v })
store_entry (negsuc _) v k = none

abbrev modify_sync : ℕ → (SyncObj → SyncObj) → K (Unit {0})
modify_sync a f k =
    and_then (k.sync_objs a) λ v. some (tt, record k { sync_objs = put k.sync_objs a (f v) })

abbrev free_sync : ℕ → K (Unit {0})
free_sync a k =
    and_then (k.sync_objs a) λ _. some (tt, record k { sync_objs = drop_cell k.sync_objs a })

-- `malloc` at `a`, and the type. The other fields are not determined until they are written.
abbrev new_sync : ℕ → SyncType → K (Unit {0})
new_sync a type k =
    pure tt (record k {
      sync_objs = put k.sync_objs a (record { type = type; id = error; object = null });
    })

-- `fresh` is what `malloc` returns. Where no id is free the object is given back, and used after
-- that. The type is one of the three, so the `default` branch of the switch is never taken.
unfoldable pub init_sync_object : SyncType → (object fresh : ℕ) → K ℤ
unfolding get_new_id
init_sync_object type object fresh = if fresh == null then pure error else do
  new_sync fresh type
  id ← get_new_id
  when (ltb_ℤ id (pos 0)) (free_sync fresh)
  modify_sync fresh (λ v. record v { id = id })
  modify_sync fresh (λ v. record v { object = object })
  store_entry id fresh
  pure id

-- `id < 0 || id >= MAX_SYNCS || sync_table[id] == NULL`.
invalid : ℤ → K Bool
invalid (negsuc _) = pure true
invalid (pos id) =
    if leb max_syncs id then pure true else do entry ← load_entry (pos id); pure (entry == null)

-- The object of an id, `none` where the code returns ERROR. That the type is the expected one is
-- looked at, and only traced.
unfoldable pub get_check_sync : ℤ → (expected : SyncType) → K (Option ℕ)
unfolding invalid
get_check_sync id expected = do
  bad ← invalid id
  if bad then pure none else do sync ← load_entry id; load_sync sync; pure (some sync)

-- The lists that `SyncReclaim` clears, and the object that it gives back, by the type. An object
-- that is not of the type it is tagged with is a fault.
abbrev free_object :
    {A : Type 0} → (Kernel → ℕ → Option A) → (Kernel → (ℕ → Option A) → Kernel) → ℕ → K (Unit {0})
free_object field store o k = and_then (field k o) λ _. some (tt, store k (drop_cell (field k) o))

abbrev unmap_lists : ℕ → ℕ → K (Unit {0})
unmap_lists a b k = pure tt (record k { links = unmap_list b (unmap_list a k.links) })

abbrev pub free_pipe : ℕ → K (Unit {0})
free_pipe o =
    free_object (λ k. k.pipes) (λ k f. record k { pipes = f }) o
    >> unmap_lists (readers o) (writers o)

abbrev pub free_lock : ℕ → K (Unit {0})
free_lock o =
    free_object (λ k. k.locks) (λ k f. record k { locks = f }) o
    >> unmap_lists (waiters o) (waiters o)

abbrev pub free_cvar : ℕ → K (Unit {0})
free_cvar o =
    free_object (λ k. k.cvars) (λ k f. record k { cvars = f }) o
    >> unmap_lists (waiters o) (waiters o)

reclaim_object : SyncType → ℕ → K (Unit {0})
reclaim_object pipe o = do
  on_links (clear_list (readers o))
  on_links (clear_list (writers o))
  free_pipe o
reclaim_object lock o = on_links (clear_list (waiters o)) >> free_lock o
reclaim_object cvar o = on_links (clear_list (waiters o)) >> free_cvar o

unfoldable pub sync_reclaim : ℤ → K ℤ
unfolding invalid reclaim_object free_id
sync_reclaim id = do
  bad ← invalid id
  if bad then pure error else do
    sync ← load_entry id
    v ← load_sync sync
    reclaim_object v.type v.object
    free_id id
    store_entry id null
    free_sync sync
    pure success
