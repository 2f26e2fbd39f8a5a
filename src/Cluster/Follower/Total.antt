-- ===== src/Cluster/Follower/Total.antt =====
-- A follower on whatever its leader sends: the loop ends, and the store stays in order.
use keva.Prelude.{
  Option, some, ℕ, zero, suc, ◌<◌, ◌≡◌, ◌≢◌, inl, inr, refl, ap, arith, Bytes, length, length-drop,
  Outcome, ok, err, panic,
}
use keva.Prelude.Reader.{IoError}
use keva.Store.KvStore.{KvStore}
use keva.Store.KvStore.Sharding.{IsReady}
use keva.Protocol.Message.{
  Message, get_request, set_request, delete_request, get_response, set_response, delete_response,
  topology_request, topology_response, replication_sync, replication_ack, replication_join,
  heartbeat, heartbeat_ack, vote_request, vote_response, error_message,
}
use keva.Protocol.Frame.{FrameError, frame_too_large, io_error, malformed, read_frame}
use keva.Protocol.Frame.Progress.{read_frame-Moved}
use keva.Cluster.Node.Replica.{apply_sync-Applied}
use keva.Cluster.Follower.{
  after_apply, after_handled, Link, Local, Break, out_of_fuel, send_frame, apply_message,
  after_frame, receive_frame, sync_loop,
}

-- A message has been handled without a panic, and the store is in order.
record Handled (r : Option (KvStore × Link)) (c : Link) : Type 0 where
  store : KvStore
  link : Link
  is : r ≡ some (store, link)
  ready : IsReady store
  same_input : link.input ≡ c.input

passed_over : (kv : KvStore) (c : Link) → IsReady kv → Handled (some (kv, c)) c
passed_over kv c h = record { store = kv; link = c; is = refl; ready = h; same_input = refl }

apply_message-Handled :
    (l : Local) (i : ℕ) (msg : Message) (kv : KvStore) (c : Link)
    → IsReady kv
    → Handled (apply_message l i msg kv c) c
unfolding apply_message after_apply send_frame
apply_message-Handled l i (get_request r) kv c h = passed_over kv c h
apply_message-Handled l i (set_request r) kv c h = passed_over kv c h
apply_message-Handled l i (delete_request r) kv c h = passed_over kv c h
apply_message-Handled l i (get_response r) kv c h = passed_over kv c h
apply_message-Handled l i (set_response r) kv c h = passed_over kv c h
apply_message-Handled l i (delete_response r) kv c h = passed_over kv c h
apply_message-Handled l i (topology_request r) kv c h = passed_over kv c h
apply_message-Handled l i (topology_response r) kv c h = passed_over kv c h
apply_message-Handled l i (replication_sync r) kv c h =
    let a = apply_sync-Applied l.disk l.range (l.now i) kv h r in
    rw a.is (record { store = a.store; link = _; is = refl; ready = a.ready; same_input = refl })
apply_message-Handled l i (replication_ack r) kv c h = passed_over kv c h
apply_message-Handled l i (replication_join r) kv c h = passed_over kv c h
apply_message-Handled l i (heartbeat r) kv c h = passed_over kv c h
apply_message-Handled l i (heartbeat_ack r) kv c h = passed_over kv c h
apply_message-Handled l i (vote_request r) kv c h = passed_over kv c h
apply_message-Handled l i (vote_response r) kv c h = passed_over kv c h
apply_message-Handled l i (error_message r) kv c h = passed_over kv c h

-- The loop has come to an end, with a store in order.
abbrev pub IsOver : Break × KvStore × Link → Type 0
IsOver (b, kv, c) = (b ≢ out_of_fuel) × IsReady kv

shorter :
    (input : Bytes)
    → ((e : IoError) → (read_frame 0 input).0 ≢ err (io_error e))
    → length (read_frame 0 input).1 < length input
shorter input other =
    let v = read_frame-Moved 0 input in
    elim v.far [
      | inl le ↦ omega (arith, le, v.within, ap length v.is, length-drop v.count input)
      | inr (e, q) ↦ absurd (other e q)
    ]

-- Whatever a leader sends, frames that do not decode and messages that are no syncs included, more
-- fuel than there are bytes is enough for the follower's loop, and its store stays in order.
pub sync_loop-IsOver :
    (l : Local) (fuel i : ℕ) (kv : KvStore) (c : Link)
    → length c.input < fuel
    → IsReady kv
    → IsOver (sync_loop l i fuel (kv, c))
unfolding sync_loop receive_frame after_frame after_handled
sync_loop-IsOver l zero i kv c h ready = absurd (omega (arith, h))
sync_loop-IsOver l (suc fuel) i kv c h ready =
    by_frame (read_frame 0 c.input).0 refl (sync_loop-IsOver l fuel (suc i))
  where
    rest : Bytes
    rest = (read_frame 0 c.input).1

    left : Link
    left = record c { input = (read_frame 0 c.input).1 }

    by_frame :
        (r : Outcome FrameError Message)
        → (read_frame 0 c.input).0 ≡ r
        → ((k : KvStore) (d : Link)
            → length d.input < fuel
            → IsReady k
            → IsOver (sync_loop l (suc i) fuel (k, d)))
        → IsOver (after_frame l i (sync_loop l (suc i) fuel) kv (r, left))
    by_frame (ok msg) e more =
        let a = apply_message-Handled l i msg kv left ready in
        let s = shorter c.input (λ x q. cc (e, q)) in
        rw a.is (more a.store a.link (omega (arith, ap length a.same_input, s, h)) a.ready)
    by_frame (err (malformed x)) e more =
        let s = shorter c.input (λ y q. cc (e, q)) in more kv left (omega (arith, s, h)) ready
    by_frame (err frame_too_large) e more = (λ q. cc q, ready)
    by_frame (err (io_error x)) e more = (λ q. cc q, ready)
    by_frame panic e more = (λ q. cc q, ready)
