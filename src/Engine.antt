-- ===== src/Engine.antt =====
-- engine/: the handlers of the clients' requests, and their dispatch by opcode.
pub mod Total
use keva.Prelude.{
  ℕ, Bool, true, false, Option, none, some, List, [], ◌∷◌, Bytes, ◌==◌, if◌then◌else◌, Outcome, ok,
  err, panic,
}
use keva.Time.{Time}
use keva.Shard.{RangeOrder}
use keva.Wal.Writer.{Disk}
use keva.Store.{StoreError, key_not_found, memory_full, wal_error}
use keva.Protocol.Opcodes.{op_get, op_set, op_delete}
use keva.Protocol.Errors.{err_code_internal}
use keva.Protocol.Message.{
  Message, get_request, set_request, delete_request, get_response, set_response, delete_response,
  error_message, op_code,
}
use keva.Cluster.Node.{Node, node_set, node_get, node_delete}

-- The messages of the errors, which `err.Error()` gives.
pub record Texts : Type 0 where
  pub of_error : StoreError → Bytes
  pub key_not_found : Bytes
  pub ok : Bytes

-- What a handler needs besides the message and the node; `others` is what the other goroutines make
-- of the node between the end of a method's locked part and the callback that it then calls.
pub record World : Type 0 where
  pub disk : Disk
  pub range : RangeOrder
  pub alive : Bytes → Bool
  pub now : Time
  pub later : Time
  pub texts : Texts
  pub others : Node → Node

pub data HandlerError : Type 0 where
  no_handler : ℕ → HandlerError

abbrev pub Reply : Type 0
Reply = Outcome HandlerError Message × Node

unfoldable pub get_reply : World → Outcome StoreError Bytes × Node → Reply
get_reply w (ok val, n) = (ok (get_response (record { found = true; value = val })), n)
get_reply w (err key_not_found, n) = (ok (get_response (record { found = false; value = [] })), n)
get_reply w (err memory_full, n) = (
  ok (error_message (record { code = err_code_internal; message = w.texts.of_error memory_full })),
  n,
)
get_reply w (err (wal_error e), n) = (
  ok (
      error_message
        (record { code = err_code_internal; message = w.texts.of_error (wal_error e) })),
  n,
)
get_reply w (panic, n) = (panic, n)

unfoldable pub set_reply : World → Outcome StoreError Unit × Node → Reply
set_reply w (ok u, n) = (ok (set_response (record { success = true; message = w.texts.ok })), n)
set_reply w (err e, n) =
    (ok (set_response (record { success = false; message = w.texts.of_error e })), n)
set_reply w (panic, n) = (panic, n)

unfoldable pub delete_reply : World → Outcome StoreError Unit × Node → Reply
delete_reply w (ok u, n) =
    (ok (delete_response (record { success = true; message = w.texts.ok })), n)
delete_reply w (err key_not_found, n) =
    (ok (delete_response (record { success = false; message = w.texts.key_not_found })), n)
delete_reply w (err memory_full, n) =
    (ok (delete_response (record { success = false; message = w.texts.of_error memory_full })), n)
delete_reply w (err (wal_error e), n) =
    (ok (delete_response (record { success = false; message = w.texts.of_error (wal_error e) })), n)
delete_reply w (panic, n) = (panic, n)

-- The handlers; one that is given another type of message panics at its assertion.
unfoldable pub handle_get : World → Message → Node → Reply
unfolding get_reply node_get
handle_get w (get_request r) n = get_reply w (node_get w.now r.key n)
handle_get w _ n = (panic, n)

unfoldable pub handle_set : World → Message → Node → Reply
unfolding set_reply node_set
handle_set w (set_request r) n =
    set_reply w (node_set w.disk w.range w.alive w.now w.later r.key r.value r.ttl n)
handle_set w _ n = (panic, n)

unfoldable pub handle_delete : World → Message → Node → Reply
unfolding delete_reply node_delete
handle_delete w (delete_request r) n = delete_reply w (node_delete w.disk w.alive r.key n)
handle_delete w _ n = (panic, n)

-- `Dispatch`, with the handlers that `init` registers
unfoldable pub dispatch : World → Message → Node → Reply
unfolding handle_get handle_set handle_delete
dispatch w msg n =
    if op_code msg == op_get
    then handle_get w msg n
    else if op_code msg == op_set
    then handle_set w msg n
    else if op_code msg == op_delete
    then handle_delete w msg n
    else (err (no_handler (op_code msg)), n)
