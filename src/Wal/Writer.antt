-- ===== src/Wal/Writer.antt =====
-- storage/wal/wal_writer.go and wal_compaction.go: the file, the queue of the background flusher and
-- the batch that it holds.
pub mod Flusher
use keva.Prelude.{
  ℕ, ◌*◌, ◌<◌, Bool, true, false, List, [], ◌∷◌, ◌++◌, Bytes, length, take, ltb, leb, ◌==◌,
  if◌then◌else◌, Outcome, ok, err,
}
use keva.Time.{Time}
use keva.Wal.{Record, op_set, op_delete, encode}

-- Any mode but "always" and "interval" is treated as "none".
pub data SyncMode : Type 0 where
  sync_always sync_interval sync_none : SyncMode

pub data WalError : Type 0 where
  write_failed sync_failed : WalError

-- What the disk does with a write and a sync: a write that fails may have written a part.
pub record Disk : Type 0 where
  pub written : ℕ
  pub sync_ok : Bool

-- `file` is what has been written and `synced` what was in it at the last sync; `queue` is `writeCh`
-- and `batch` the flusher's,
-- which is `running` until `Close` has stopped it.
pub record Wal : Type 0 where
  pub mode : SyncMode
  pub max_batch_size : ℕ
  pub file : Bytes
  pub synced : Bytes
  pub queue : List Bytes
  pub batch : List Bytes
  pub running : Bool

abbrev pub concat : List Bytes → Bytes
concat [] = []
concat (b ∷ bs) = b ++ concat bs

-- `w.file.Sync()` in `append`
unfoldable pub sync_file : Disk → Wal → Outcome WalError Unit × Wal
sync_file disk w =
    if disk.sync_ok then (ok tt, record w { synced = w.file }) else (err sync_failed, w)

unfoldable pub finish_write : Disk → SyncMode → Wal → Outcome WalError Unit × Wal
finish_write disk sync_always w = sync_file disk w
finish_write disk sync_interval w = (ok tt, w)
finish_write disk sync_none w = (ok tt, w)

unfoldable pub write_direct : Disk → Bytes → Wal → Outcome WalError Unit × Wal
unfolding sync_file finish_write
write_direct disk buf w =
    let w' : Wal = record w { file = w.file ++ take disk.written buf } in
    if ltb disk.written (length buf) then (err write_failed, w') else finish_write disk w.mode w'

unfoldable pub append_by_mode : Disk → Bytes → SyncMode → Wal → Outcome WalError Unit × Wal
append_by_mode disk buf sync_interval w = (ok tt, record w { queue = w.queue ++ (buf ∷ []) })
append_by_mode disk buf sync_always w = write_direct disk buf w
append_by_mode disk buf sync_none w = write_direct disk buf w

-- `append`. In the mode "interval" it waits for room in the queue; the model's call is the moment
-- at which there is room.
unfoldable pub append : Disk → Record → Wal → Outcome WalError Unit × Wal
unfolding write_direct append_by_mode
append disk r w = append_by_mode disk (encode r) w.mode w

unfoldable pub append_set : Disk → Bytes → Bytes → Time → Wal → Outcome WalError Unit × Wal
unfolding append
append_set disk key value expires_at =
    append disk (record { op = op_set; key = key; value = value; expires_at = expires_at })

-- The zero `Record` fields: no value, and the zero `Time`.
unfoldable pub append_delete : Disk → Bytes → Wal → Outcome WalError Unit × Wal
unfolding append
append_delete disk key =
    append disk (record { op = op_delete; key = key; value = []; expires_at = 0 })

-- The writes of one flush: how much of each buffer reaches the file, all of it where the list ends.
unfoldable pub write_batch : List ℕ → List Bytes → Bytes
write_batch lands [] = []
write_batch [] (b ∷ bs) = b ++ write_batch [] bs
write_batch (n ∷ lands) (b ∷ bs) = take n b ++ write_batch lands bs

-- `flush` of `runFlusher`, which looks at no error.
unfoldable pub flush : List ℕ → Bool → Wal → Wal
unfolding write_batch
flush lands sync_ok w =
    let written : Bytes = w.file ++ write_batch lands w.batch in
    if length w.batch == 0
    then w
    else record w { file = written; synced = if sync_ok then written else w.synced; batch = [] }

-- `case data := <-w.writeCh`
unfoldable pub receive : List ℕ → Bool → Bytes → List Bytes → Wal → Wal
unfolding flush
receive lands sync_ok buf rest w =
    let w' : Wal = record w { queue = rest; batch = w.batch ++ (buf ∷ []) } in
    if leb w'.max_batch_size (length w'.batch) then flush lands sync_ok w' else w'

-- `case <-w.stopCh`: the flusher ends after a last flush.
unfoldable pub stop : List ℕ → Bool → Wal → Wal
unfolding flush
stop lands sync_ok w = record (flush lands sync_ok w) { running = false }

-- `Close` in the other modes
unfoldable pub close_direct : Bool → Wal → Wal
close_direct sync_ok w = record w { synced = if sync_ok then w.file else w.synced }

-- `os.Rename` of the finished snapshot over the log, and the switch to the new file
unfoldable pub swap_in : Bytes → Wal → Wal
swap_in snapshot w = record w { file = snapshot; synced = snapshot }
