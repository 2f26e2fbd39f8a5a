-- ===== src/Store/KvStore/History.antt =====
-- What a store promises to its callers, as a map from keys to values: histories of operations on a
-- store without a memory limit, and on the map.
use keva.Prelude.{
  ◌≤◌, ◌≡◌, ◌≢◌, refl, sym, ap, ◌∙◌, Bool, true, false, Option, none, some, List, [], ◌∷◌, ◌++◌,
  append_assoc, append-nil, All, Bytes, bytes_eq, if◌then◌else◌, Outcome, ok, err, length,
}
use keva.Time.{Time, after}
use keva.Shard.{Record, RangeOrder}
use keva.Wal.{op_set, op_delete, encode}
use keva.Wal
use keva.Wal.Replay.{encode_all}
use keva.Wal.Writer.{sync_interval, Disk}
use keva.Store.{StoreError, key_not_found}
use keva.Store.Contents.{reply, deleted}
use keva.Store.KvStore.{KvStore, set_with_expiry, get, delete}
use keva.Store.KvStore.Sharding.{find}
use keva.Store.KvStore.Plain.{IsPlainStore}
use keva.Store.KvStore.Logged.{set-Logs, delete-Logs, get-Logs, set_record, delete_record}

-- An operation, with the time at which it comes.
pub data Op : Type 0 where
  put : Time → Bytes → Bytes → Time → Op
  del : Bytes → Op
  read : Time → Bytes → Op

pub data Answer : Type 0 where
  wrote : Outcome StoreError Unit → Answer
  found : Outcome StoreError Bytes → Answer

-- The map: what each key has, and until when.
abbrev pub Contents : Type 0
Contents = Bytes → Option (Bytes × Time)

abbrev pub answer_read : Time → Option (Bytes × Time) → Outcome StoreError Bytes
answer_read now none = err key_not_found
answer_read now (some (value, expires)) = if after now expires then err key_not_found else ok value

abbrev pub answer_delete : Option (Bytes × Time) → Outcome StoreError Unit
answer_delete none = err key_not_found
answer_delete (some e) = ok tt

-- What the operations promise.
abbrev pub promise : Op → Contents → Answer × Contents
promise (put now key value expires) m =
    (wrote (ok tt), λ j. if bytes_eq key j then some (value, expires) else m j)
promise (del key) m = (wrote (answer_delete (m key)), λ j. if bytes_eq key j then none else m j)
promise (read now key) m = (found (answer_read now (m key)), m)

abbrev pub promises : List Op → Contents → List Answer × Contents
promises [] m = ([], m)
promises (o ∷ os) m = let (a, m1) = promise o m in let (rest, m2) = promises os m1 in (a ∷ rest, m2)

-- The operations of the store.
abbrev pub perform : Disk → RangeOrder → Op → KvStore → Answer × KvStore
perform disk range (put now key value expires) kv =
    let (r, kv1) = set_with_expiry disk range now key value expires kv in (wrote r, kv1)
perform disk range (del key) kv = let (r, kv1) = delete disk key kv in (wrote r, kv1)
perform disk range (read now key) kv = let (r, kv1) = get now key kv in (found r, kv1)

abbrev pub performs : Disk → RangeOrder → List Op → KvStore → List Answer × KvStore
performs disk range [] kv = ([], kv)
performs disk range (o ∷ os) kv =
    let (a, kv1) = perform disk range o kv in
    let (rest, kv2) = performs disk range os kv1 in (a ∷ rest, kv2)

-- What an operation has written to the log.
abbrev pub log_of : Op → List Wal.Record
log_of (put now key value expires) = set_record key value expires ∷ []
log_of (del key) = delete_record key ∷ []
log_of (read now key) = []

abbrev pub log_of_all : List Op → List Wal.Record
log_of_all [] = []
log_of_all (o ∷ os) = log_of o ++ log_of_all os

-- The part of an entry that a caller sees.
abbrev pub seen : Option Record → Option (Bytes × Time)
seen none = none
seen (some rec) = some (rec.value, rec.expired_at)

-- A plain store that holds what the map says, and logs each write at once.
pub record Holds (kv : KvStore) (m : Contents) : Type 0 where
  pub plain_store : IsPlainStore kv
  pub direct : kv.wal.mode ≢ sync_interval
  pub holds : (j : Bytes) → seen (find j kv) ≡ m j

-- The log's disk takes every record of the operations.
pub record DiskTakes (disk : Disk) (os : List Op) : Type 0 where
  pub room : All (λ r. length (encode r) ≤ disk.written) (log_of_all os)
  pub syncs : disk.sync_ok ≡ true

-- One operation has done what the map promises, and logged it.
pub record Kept (records : List Wal.Record) (kv : KvStore) (m : Contents) (a b : Answer)
    (kv' : KvStore) : Type 0 where
  pub same_answer : a ≡ b
  pub holds : Holds kv' m
  pub logs : kv'.wal.file ≡ kv.wal.file ++ encode_all records

pub reply-seen : (now : Time) (x : Option Record) → reply now x ≡ answer_read now (seen x)
reply-seen now none = refl
reply-seen now (some rec) = refl

deleted-seen : (x : Option Record) → deleted x ≡ answer_delete (seen x)
deleted-seen none = refl
deleted-seen (some rec) = refl

seen-if :
    (b : Bool) (x y : Option Record) (e f : Option (Bytes × Time))
    → seen x ≡ e
    → seen y ≡ f
    → seen (if b then x else y) ≡ (if b then e else f)
seen-if true x y e f p q = p
seen-if false x y e f p q = q

one_record : (r : Wal.Record) → encode_all (r ∷ []) ≡ encode r
one_record r = append-nil (encode r)

pub All-split :
    (P : Wal.Record → Type 0) (xs ys : List Wal.Record) → All P (xs ++ ys) → All P xs × All P ys
All-split P [] ys h = (tt, h)
All-split P (x ∷ xs) ys h = let r = All-split P xs ys h.1 in ((h.0, r.0), r.1)

module _ (disk : Disk) (range : RangeOrder) where
  pub perform-Kept :
      (o : Op) (kv : KvStore) (m : Contents)
      → Holds kv m
      → All (λ r. length (encode r) ≤ disk.written) (log_of o)
      → disk.sync_ok ≡ true
      → Kept
          (log_of o)
          kv
          (promise o m).1
          (perform disk range o kv).0
          (promise o m).0
          (perform disk range o kv).1
  perform-Kept (put now key value expires) kv m h room syncs =
      let q =
        set-Logs disk kv h.plain_store range now key value expires
          (record { direct = h.direct; room = room.0; syncs = syncs }) in
      record {
        same_answer = ap wrote q.0;
        holds = record {
          plain_store = q.1.plain_store;
          direct = λ e. h.direct (sym q.1.mode ∙ e);
          holds = λ j. ap seen (q.2 j) ∙ seen-if (bytes_eq key j) _ _ _ _ refl (h.holds j);
        };
        logs =
            q.1.file ∙ ap (λ x. kv.wal.file ++ x) (sym (one_record (set_record key value expires)));
      }
  perform-Kept (del key) kv m h room syncs =
      let q =
        delete-Logs disk kv h.plain_store key
          (record { direct = h.direct; room = room.0; syncs = syncs }) in
      record {
        same_answer = ap wrote (q.0 ∙ deleted-seen (find key kv) ∙ ap answer_delete (h.holds key));
        holds = record {
          plain_store = q.1.plain_store;
          direct = λ e. h.direct (sym q.1.mode ∙ e);
          holds = λ j. ap seen (q.2 j) ∙ seen-if (bytes_eq key j) none _ _ _ refl (h.holds j);
        };
        logs = q.1.file ∙ ap (λ x. kv.wal.file ++ x) (sym (one_record (delete_record key)));
      }
  perform-Kept (read now key) kv m h room syncs =
      let q = get-Logs disk kv h.plain_store key now in
      record {
        same_answer =
            ap found (q.0 ∙ reply-seen now (find key kv) ∙ ap (answer_read now) (h.holds key));
        holds = record {
          plain_store = q.1;
          direct = λ e. h.direct (sym (ap (λ w. w.mode) q.2) ∙ e);
          holds = λ j. ap seen (q.3 j) ∙ h.holds j;
        };
        logs = ap (λ w. w.file) q.2 ∙ sym (append-nil kv.wal.file);
      }

  encode_all-append :
      (xs ys : List Wal.Record) → encode_all (xs ++ ys) ≡ encode_all xs ++ encode_all ys
  encode_all-append [] ys = refl
  encode_all-append (x ∷ xs) ys =
      ap (λ t. encode x ++ t) (encode_all-append xs ys)
      ∙ sym (append_assoc (encode x) (encode_all xs) (encode_all ys))

  -- A whole history, with its answers.
  pub record Served (os : List Op) (kv : KvStore) (m : Contents) : Type 0 where
    pub same_answers : (performs disk range os kv).0 ≡ (promises os m).0
    pub holds : Holds (performs disk range os kv).1 (promises os m).1
    pub logs : (performs disk range os kv).1.wal.file ≡ kv.wal.file ++ encode_all (log_of_all os)

  -- A store that has neither eviction policy nor memory limit and logs each write at once, to a
  -- disk that takes it, answers any history of sets, deletes and reads as a map from keys to
  -- values with their expiries does, holds what the map holds, and has appended to its log the
  -- records of the writes, in order.
  pub performs-promises :
      (os : List Op) (kv : KvStore) (m : Contents) → Holds kv m → DiskTakes disk os → Served os kv m
  performs-promises [] kv m h d = record {
    same_answers = refl;
    holds = h;
    logs = sym (append-nil kv.wal.file);
  }
  performs-promises (o ∷ os) kv m h d =
      let (room, rooms) = All-split _ (log_of o) (log_of_all os) d.room in
      let k = perform-Kept o kv m h room d.syncs in
      let s =
        performs-promises os (perform disk range o kv).1 (promise o m).1 k.holds
          (record { room = rooms; syncs = d.syncs }) in
      record {
        same_answers =
            ap (λ a. a ∷ (performs disk range os (perform disk range o kv).1).0) k.same_answer
            ∙ ap (λ l. (promise o m).0 ∷ l) s.same_answers;
        holds = s.holds;
        logs =
            s.logs
            ∙ ap (λ f. f ++ encode_all (log_of_all os)) k.logs
            ∙ append_assoc kv.wal.file (encode_all (log_of o)) (encode_all (log_of_all os))
            ∙ ap (λ t. kv.wal.file ++ t) (sym (encode_all-append (log_of o) (log_of_all os)));
      }
