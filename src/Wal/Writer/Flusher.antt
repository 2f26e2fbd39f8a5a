-- ===== src/Wal/Writer/Flusher.antt =====
-- The background flusher as a step relation: appends, batches, ticks and the stop in any order.
use keva.Prelude.{
  length-eq-zero, ==→eq, ◌*◌, ◌<◌, ◌≡◌, refl, ap, sym, ◌∙◌, inl, inr, Bool, true, Bool-cases, List,
  [], ◌∷◌, ◌++◌, append_assoc, append-nil, Bytes, length, leb, ◌==◌,
}
use keva.Wal.{Record, encode}
use keva.Wal.Writer.{sync_interval, Wal, Disk, concat, append, write_batch, flush, receive, stop}

-- One step of the log in the mode "interval" on a disk that takes every write, and the record that
-- it accepts, if any. The queue has room for `MaxBatchSize * 2` records.
pub data Step : Wal → List Record → Wal → Type 0 where
  accept :
      (w : Wal) (disk : Disk) (r : Record)
      → w.mode ≡ sync_interval
      → length w.queue < w.max_batch_size * 2
      → Step w (r ∷ []) (append disk r w).1
  take_up :
      (w : Wal) (sync_ok : Bool) (buf : Bytes) (rest : List Bytes)
      → w.running ≡ true
      → w.queue ≡ buf ∷ rest
      → Step w [] (receive [] sync_ok buf rest w)
  tick : (w : Wal) (sync_ok : Bool) → w.running ≡ true → Step w [] (flush [] sync_ok w)
  close : (w : Wal) (sync_ok : Bool) → w.running ≡ true → Step w [] (stop [] sync_ok w)

-- A run, with the records accepted on it, oldest first.
pub data Run (w : Wal) : List Record → Wal → Type 0 where
  here : Run w [] w
  next : {rs more : List Record} {t u : Wal} → Run w rs t → Step t more u → Run w (rs ++ more) u

abbrev pub buffers : List Record → List Bytes
buffers [] = []
buffers (r ∷ rs) = encode r ∷ buffers rs

-- What has been accepted so far: the file, and what waits to be written.
abbrev pub accepted : Wal → Bytes
accepted w = w.file ++ (concat w.batch ++ concat w.queue)

concat-append : (xs ys : List Bytes) → concat (xs ++ ys) ≡ concat xs ++ concat ys
concat-append [] ys = refl
concat-append (x ∷ xs) ys = rw (concat-append xs ys, append_assoc x (concat xs) (concat ys))

write_batch-concat : (bs : List Bytes) → write_batch [] bs ≡ concat bs
unfolding write_batch
write_batch-concat [] = refl
write_batch-concat (b ∷ bs) = ap (λ x. b ++ x) (write_batch-concat bs)

accepted-flush : (sync_ok : Bool) (w : Wal) → accepted (flush [] sync_ok w) ≡ accepted w
unfolding flush
accepted-flush sync_ok w = elim (Bool-cases (length w.batch == 0)) [
  | inl e ↦ rw e
  | inr e ↦
      rw (e, write_batch-concat w.batch, append_assoc w.file (concat w.batch) (concat w.queue))
]

accepted-receive :
    (sync_ok : Bool) (buf : Bytes) (rest : List Bytes) (w : Wal)
    → w.queue ≡ buf ∷ rest
    → accepted (receive [] sync_ok buf rest w) ≡ accepted w
accepted-receive sync_ok buf rest w e =
    elim (Bool-cases (leb w'.max_batch_size (length w'.batch))) [
      | inl full ↦ unfold receive in rw full (accepted-flush sync_ok w' ∙ moved)
      | inr room ↦ unfold receive in rw room moved
    ]
  where
    w' : Wal
    w' = record w { queue = rest; batch = w.batch ++ (buf ∷ []) }

    moved : accepted w' ≡ accepted w
    moved =
        rw
          (
            concat-append w.batch (buf ∷ []),
            append-nil buf,
            append_assoc (concat w.batch) buf (concat rest),
          )
          (ap (λ q. w.file ++ (concat w.batch ++ concat q)) (sym e))

accepted-Step :
    {w u : Wal} {rs : List Record} → Step w rs u → accepted u ≡ accepted w ++ concat (buffers rs)
accepted-Step (accept w disk r m room) =
    unfold append in
    rw (
      m,
      concat-append w.queue (encode r ∷ []),
      append_assoc w.file (concat w.batch ++ concat w.queue) (encode r ++ []),
      append_assoc (concat w.batch) (concat w.queue) (encode r ++ []),
    )
accepted-Step (take_up w sync_ok buf rest on e) =
    accepted-receive sync_ok buf rest w e ∙ sym (append-nil _)
accepted-Step (tick w sync_ok on) = accepted-flush sync_ok w ∙ sym (append-nil _)
accepted-Step (close w sync_ok on) = unfold stop in accepted-flush sync_ok w ∙ sym (append-nil _)

buffers-append : (rs more : List Record) → buffers (rs ++ more) ≡ buffers rs ++ buffers more
buffers-append [] more = refl
buffers-append (r ∷ rs) more = ap (◌∷◌ (encode r)) (buffers-append rs more)

-- Whatever the order of appends, batches and ticks, on a disk that takes every write, the file
-- followed by the batch and the queue is what was there at first followed by the records accepted,
-- in order: none is lost, doubled or moved.
pub accepted-Run :
    {w u : Wal} {rs : List Record} → Run w rs u → accepted u ≡ accepted w ++ concat (buffers rs)
accepted-Run here = sym (append-nil _)
accepted-Run {w} (next {rs} {more} r s) =
    accepted-Step s
    ∙ ap (λ x. x ++ concat (buffers more)) (accepted-Run r)
    ∙ append_assoc (accepted w) (concat (buffers rs)) (concat (buffers more))
    ∙ ap (λ x. accepted w ++ x)
        (sym (ap concat (buffers-append rs more) ∙ concat-append (buffers rs) (buffers more)))

batch-flush : (sync_ok : Bool) (w : Wal) → (flush [] sync_ok w).batch ≡ []
unfolding flush
batch-flush sync_ok w = elim (Bool-cases (length w.batch == 0)) [
  | inl e ↦ rw e (length-eq-zero w.batch (==→eq (length w.batch) 0 e))
  | inr e ↦ rw e
]

queue-flush : (sync_ok : Bool) (w : Wal) → (flush [] sync_ok w).queue ≡ w.queue
unfolding flush
queue-flush sync_ok w = elim (Bool-cases (length w.batch == 0)) [ inl e ↦ rw e | inr e ↦ rw e ]

-- Close writes the batch, and not the queue: what has been accepted in a run is the file that it
-- leaves followed by the records that were still in the queue, which are lost.
pub file-stop :
    {w t : Wal} {rs : List Record} (sync_ok : Bool)
    → Run w rs t
    → (stop [] sync_ok t).file ++ concat t.queue ≡ accepted w ++ concat (buffers rs)
unfolding stop
file-stop {t = t} sync_ok r =
    ap (λ q. (flush [] sync_ok t).file ++ concat q) (sym (queue-flush sync_ok t))
    ∙ drop_batch (flush [] sync_ok t) (batch-flush sync_ok t)
    ∙ accepted-flush sync_ok t
    ∙ accepted-Run r
  where
    drop_batch : (v : Wal) → v.batch ≡ [] → v.file ++ concat v.queue ≡ accepted v
    drop_batch v e = ap (λ b. v.file ++ (concat b ++ concat v.queue)) (sym e)
