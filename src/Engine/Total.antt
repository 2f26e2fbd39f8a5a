-- ===== src/Engine/Total.antt =====
-- Every message that reaches the engine is answered, and leaves the node's store in order.
use keva.Wal.Writer.{WalError}
use keva.Prelude.{
  ℕ, ◌≡◌, ◌≢◌, ◌⊎◌, inl, inr, refl, sym, subst, ◌∙◌, Bool-cases, Option, none, some, Bytes, Outcome,
  ok, err, panic,
}
use keva.Time.{Time, after}
use keva.Shard.{Record}
use keva.Store.{StoreError, key_not_found, memory_full, wal_error}
use keva.Store.Contents.{reply, deleted}
use keva.Store.KvStore.{set_with_expiry, delete, get}
use keva.Store.KvStore.Sharding.{IsReady, find}
use keva.Store.KvStore.Reads.{get-reply, get-IsReady, set_with_expiry-Written}
use keva.Store.KvStore.Deletes.{delete-Deleted}
use keva.Protocol.Message.{
  Message, get_request, set_request, delete_request, get_response, set_response, delete_response,
  topology_request, topology_response, replication_sync, replication_ack, replication_join,
  heartbeat, heartbeat_ack, vote_request, vote_response, error_message, op_code,
}
use keva.Cluster.Node.{Node, node_get, node_set, node_delete, expiry, set_sync, delete_sync}
use keva.Cluster.Node.Replica.{after_write-lem}
use keva.Engine.{
  World, Reply, get_reply, set_reply, delete_reply, handle_get, handle_set, handle_delete, dispatch,
}

-- An answer that is no panic, from a node whose store is in order.
abbrev pub IsAnswered : Reply → Type 0
IsAnswered (r, n) = (r ≢ panic) × IsReady n.db

get_reply-IsAnswered :
    (w : World) (r : Outcome StoreError Bytes) (n : Node)
    → r ≢ panic
    → IsReady n.db
    → IsAnswered (get_reply w (r, n))
unfolding get_reply
get_reply-IsAnswered w (ok val) n p h = (λ e. cc e, h)
get_reply-IsAnswered w (err key_not_found) n p h = (λ e. cc e, h)
get_reply-IsAnswered w (err memory_full) n p h = (λ e. cc e, h)
get_reply-IsAnswered w (err (wal_error x)) n p h = (λ e. cc e, h)
get_reply-IsAnswered w panic n p h = absurd (p refl)

set_reply-IsAnswered :
    (w : World) (r : Outcome StoreError Unit) (n : Node)
    → r ≢ panic
    → IsReady n.db
    → IsAnswered (set_reply w (r, n))
unfolding set_reply
set_reply-IsAnswered w (ok u) n p h = (λ e. cc e, h)
set_reply-IsAnswered w (err x) n p h = (λ e. cc e, h)
set_reply-IsAnswered w panic n p h = absurd (p refl)

delete_reply-IsAnswered :
    (w : World) (r : Outcome StoreError Unit) (n : Node)
    → r ≢ panic
    → IsReady n.db
    → IsAnswered (delete_reply w (r, n))
unfolding delete_reply
delete_reply-IsAnswered w (ok u) n p h = (λ e. cc e, h)
delete_reply-IsAnswered w (err key_not_found) n p h = (λ e. cc e, h)
delete_reply-IsAnswered w (err memory_full) n p h = (λ e. cc e, h)
delete_reply-IsAnswered w (err (wal_error x)) n p h = (λ e. cc e, h)
delete_reply-IsAnswered w panic n p h = absurd (p refl)

reply-no_panic : (now : Time) (x : Option Record) → reply now x ≢ panic
reply-no_panic now none = λ e. cc e
reply-no_panic now (some rec) = elim (Bool-cases (after now rec.expired_at)) [
  | inl late ↦ rw late (λ e. cc e)
  | inr early ↦ rw early (λ e. cc e)
]

deleted-no_panic : (x : Option Record) → deleted x ≢ panic
deleted-no_panic none = λ e. cc e
deleted-no_panic (some rec) = λ e. cc e

module _ (w : World) (n : Node) (h : IsReady n.db) where
  get-IsAnswered : (key : Bytes) → IsAnswered (get_reply w (node_get w.now key n))
  unfolding node_get
  get-IsAnswered key =
      get_reply-IsAnswered w (get w.now key n.db).0 _
        (λ e. reply-no_panic w.now (find key n.db) (sym (get-reply w.now key n.db h) ∙ e))
        (get-IsReady w.now key n.db h)

  set-IsAnswered :
      (key value : Bytes) (ttl : ℕ)
      → IsAnswered (set_reply w (node_set w.disk w.range w.alive w.now w.later key value ttl n))
  unfolding node_set
  set-IsAnswered key value ttl =
      let t = expiry w.now ttl n.default_ttl in
      let done = set_with_expiry w.disk w.range w.later key value t n.db in
      let wrote = set_with_expiry-Written w.disk w.range w.later key value t n.db h in
      let (q, db, sent) = after_write-lem w.alive (set_sync key value t) n done.0 done.1 in
      set_reply-IsAnswered w _ _ (λ e. wrote.no_panic (sym q ∙ e))
        (subst IsReady (sym db) wrote.ready)

  delete-IsAnswered : (key : Bytes) → IsAnswered (delete_reply w (node_delete w.disk w.alive key n))
  unfolding node_delete
  delete-IsAnswered key =
      let done = delete w.disk key n.db in
      let gone = delete-Deleted w.disk key n.db h in
      let (q, db, sent) = after_write-lem w.alive (delete_sync key) n done.0 done.1 in
      delete_reply-IsAnswered w _ _ (λ e. unbroken gone.result (sym q ∙ e))
        (subst IsReady (sym db) gone.ready)
    where
      unbroken :
          {r : Outcome StoreError Unit}
          → (r ≡ deleted (find key n.db)) ⊎ ((e : WalError) × (r ≡ err (wal_error e)))
          → r ≢ panic
      unbroken (inl f) e = deleted-no_panic (find key n.db) (sym f ∙ e)
      unbroken (inr (x, f)) e = cc (f, e)

  -- Whatever message a client sends, Dispatch on a node whose store is in order gives a response
  -- or an error and does not panic, and the store stays in order.
  pub dispatch-IsAnswered : (msg : Message) → IsAnswered (dispatch w msg n)
  unfolding dispatch op_code handle_get handle_set handle_delete
  dispatch-IsAnswered (get_request r) = get-IsAnswered r.key
  dispatch-IsAnswered (set_request r) = set-IsAnswered r.key r.value r.ttl
  dispatch-IsAnswered (delete_request r) = delete-IsAnswered r.key
  dispatch-IsAnswered (get_response r) = (λ e. cc e, h)
  dispatch-IsAnswered (set_response r) = (λ e. cc e, h)
  dispatch-IsAnswered (delete_response r) = (λ e. cc e, h)
  dispatch-IsAnswered (topology_request r) = (λ e. cc e, h)
  dispatch-IsAnswered (topology_response r) = (λ e. cc e, h)
  dispatch-IsAnswered (replication_sync r) = (λ e. cc e, h)
  dispatch-IsAnswered (replication_ack r) = (λ e. cc e, h)
  dispatch-IsAnswered (replication_join r) = (λ e. cc e, h)
  dispatch-IsAnswered (heartbeat r) = (λ e. cc e, h)
  dispatch-IsAnswered (heartbeat_ack r) = (λ e. cc e, h)
  dispatch-IsAnswered (vote_request r) = (λ e. cc e, h)
  dispatch-IsAnswered (vote_response r) = (λ e. cc e, h)
  dispatch-IsAnswered (error_message r) = (λ e. cc e, h)
