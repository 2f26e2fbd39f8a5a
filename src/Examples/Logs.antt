-- ===== src/Examples/Logs.antt =====
-- The write-ahead log at concrete inputs.
use keva.Prelude.{ℕ, ◌+◌, ◌≡◌, ◌⊎◌, refl, true, some, [], ◌∷◌, ◌++◌, arith, length, All}
use keva.Time.{unix_epoch}
use keva.Wal.{Record, op_set, op_delete, replay, finished, failed}
use keva.Prelude.Reader.{unexpected_eof}
use keva.Wal.Codec.{IsLoggable, a_set, a_delete}
use keva.Wal.Total.{replay_ends}
use keva.Wal.Writer.{Wal, Disk, sync_interval, concat, append, flush, stop}
use keva.Wal.Writer.Flusher.{
  Run, here, next, accept, tick, buffers, accepted, accepted-Run, file-stop,
}

abbrev set_one : Record
set_one = record { op = op_set; key = 1 ∷ []; value = 2 ∷ []; expires_at = unix_epoch + 100 }

abbrev delete_one : Record
delete_one = record { op = op_delete; key = 1 ∷ []; value = []; expires_at = 0 }

both-IsLoggable : All IsLoggable (set_one ∷ delete_one ∷ [])
both-IsLoggable = (
  a_set refl (omega arith) (omega arith) (record { from = omega arith; to = omega arith }),
  (a_delete refl (omega arith) refl, tt),
)

abbrev count : ℕ → Record → ℕ
count n r = n + length r.value

replay_ends_example :
    ((replay count (some (1 ∷ 0 ∷ 9 ∷ [])) 0).1 ≡ finished)
    ⊎ ((replay count (some (1 ∷ 0 ∷ 9 ∷ [])) 0).1 ≡ failed unexpected_eof)
replay_ends_example = replay_ends count (some (1 ∷ 0 ∷ 9 ∷ [])) 0

abbrev log : Wal
log = record {
  mode = sync_interval;
  max_batch_size = 10;
  file = 42 ∷ [];
  synced = [];
  queue = [];
  batch = [];
  running = true;
}

abbrev disk : Disk
disk = record { written = 0; sync_ok = true }

-- an append and a tick
abbrev after_run : Wal
after_run = flush [] true (append disk set_one log).1

log-Run : Run log ((set_one ∷ []) ++ []) after_run
log-Run =
    next (next {rs = []} here (accept log disk set_one refl (omega arith)))
      (tick (append disk set_one log).1 true (unfold append in refl))

accepted-Run_example : accepted after_run ≡ accepted log ++ concat (buffers ((set_one ∷ []) ++ []))
accepted-Run_example = accepted-Run log-Run

file-stop_example :
    (stop [] true after_run).file ++ concat after_run.queue
    ≡ accepted log ++ concat (buffers ((set_one ∷ []) ++ []))
file-stop_example = file-stop true log-Run
