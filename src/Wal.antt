-- ===== src/Wal.antt =====
-- storage/wal/: the write-ahead log. This file: the records, their format on disk, and the replay.
pub mod Codec
pub mod Replay
pub mod Total
pub mod Writer
use keva.Prelude.{
  ℕ, zero, suc, ◌+◌, ◌%◌, ◌^◌, Option, none, some, List, [], ◌∷◌, ◌++◌, Bytes, length, ◌==◌,
  if◌then◌else◌, Outcome, ok, err, panic, byte_at, uint_at, put_uint16, put_uint32, put_uint64,
}
use keva.Prelude.Reader.{IoError, eof, unexpected_eof, Read, ◌>>=◌, return, read_full}
use keva.Time.{Time, unix_nano, time_unix}

abbrev pub op_set : ℕ
op_set = 1

abbrev pub op_delete : ℕ
op_delete = 2

abbrev pub record_header_size : ℕ
record_header_size = 1 + 2 + 4 + 8

pub record Record : Type 0 where
  pub op : ℕ
  pub key : Bytes
  pub value : Bytes
  pub expires_at : Time

-- The buffer is made zeroed, and the expiry is written for sets only.
unfoldable pub encode : Record → Bytes
encode r =
    r.op
    ∷ (put_uint16 (length r.key % 2 ^ 16)
        ++ (put_uint32 (length r.value % 2 ^ 32)
            ++ (put_uint64 (if r.op == op_set then unix_nano r.expires_at else 0)
                ++ (r.key ++ r.value))))

-- `unexpectedEOF`
abbrev pub inside_record : IoError → IoError
inside_record eof = unexpected_eof
inside_record unexpected_eof = unexpected_eof

-- Only a set has a value to read.
unfoldable pub read_value : ℕ → ℕ → Read IoError Bytes
read_value op val_len = if op == op_set then read_full inside_record val_len else return (ok [])

unfoldable pub read_record : Read IoError Record
unfolding read_value
read_record = do
  header ← read_full (λ e. e) record_header_size
  op ← return (byte_at header 0)
  key_len ← return (uint_at header 1 3)
  val_len ← return (uint_at header 3 7)
  expires_at ← return (uint_at header 7 15)
  key ← read_full inside_record key_len
  value ← read_value op val_len
  return (ok (record { op = op; key = key; value = value; expires_at = time_unix expires_at }))

-- How the loop of `Replay` ends. `out_of_fuel` is no outcome of the program's.
pub data Ending : Type 0 where
  finished : Ending
  failed : IoError → Ending
  crashed out_of_fuel : Ending

-- `apply` changes a state; it has been called on each record in front of an error.
module _ {S : Type 0} (apply : S → Record → S) where
  -- One round: what the loop does with the result of `readRecord`, `next` being the other rounds.
  abbrev pub after_read : (S → Bytes → S × Ending) → S → Outcome IoError Record × Bytes → S × Ending
  after_read next st (ok rec, s) = next (apply st rec) s
  after_read next st (err eof, s) = (st, finished)
  after_read next st (err unexpected_eof, s) = (st, failed unexpected_eof)
  after_read next st (panic, s) = (st, crashed)

  unfoldable pub replay_loop : ℕ → S → Bytes → S × Ending
  replay_loop zero st s = (st, out_of_fuel)
  replay_loop (suc fuel) st s = after_read (replay_loop fuel) st (read_record s)

  -- Every record takes 15 bytes at least, so the length of the log is fuel enough. `none` is a
  -- missing file.
  unfoldable pub replay : Option Bytes → S → S × Ending
  unfolding replay_loop
  replay none st = (st, finished)
  replay (some contents) st = replay_loop (suc (length contents)) st contents
