-- ===== src/Cli.antt =====
-- cli/cli.go: the command line client, which finds the leader of a cluster and sends it commands.
pub mod Routing
pub mod Liveness
pub mod Standalone
pub mod Words
use keva.Prelude.{
  ℕ, zero, suc, ◌+◌, Bool, true, false, not, ◌&&◌, ◌||◌, Option, none, some, List, [], ◌∷◌, ◌++◌,
  map, Bytes, length, ltb, leb, ◌==◌, bytes_eq, if◌then◌else◌, Outcome, ok, err, panic,
}
use keva.Memory.{is_space, trim_space, upper, lower}
use keva.Protocol.Opcodes.{op_set, op_delete}
use keva.Protocol.Client.{NodeInfo, TopologyResponse}
use keva.Protocol.Message.{
  Message, get_request, set_request, delete_request, topology_request, topology_response, op_code,
}

-- What comes back for the `i`-th request of the client, a message to an address: none if the node
-- is not reached, or a read or a write fails, or the time is up.
abbrev pub Network : Type 0
Network = ℕ → Bytes → Message → Option Message

-- `kvClient`, and the requests that it has made, the last one first.
pub record Client : Type 0 where
  pub known_addrs : List Bytes
  pub leader_addr : Bytes
  pub followers : List Bytes
  pub made : List (Bytes × Message)

-- `newClient`
abbrev pub new_client : Bytes → Client
new_client seed = record { known_addrs = seed ∷ []; leader_addr = []; followers = []; made = [] }

-- `sendToNode`
unfoldable pub send_to_node : Network → Bytes → Message → Client → Option Message × Client
send_to_node net addr msg c =
    (net (length c.made) addr msg, record c { made = (addr, msg) ∷ c.made })

abbrev pub as_topology : Option Message → Option TopologyResponse
as_topology (some (topology_response t)) = some t
as_topology _ = none

abbrev pub ask : Message
ask = topology_request (record {})

-- `fetchTopology`
unfoldable pub fetch_topology : Network → Bytes → Client → Option TopologyResponse × Client
unfolding send_to_node
fetch_topology net addr c = let (r, c1) = send_to_node net addr ask c in (as_topology r, c1)

-- `addKnown`
unfoldable pub is_known : Bytes → List Bytes → Bool
is_known addr [] = false
is_known addr (a ∷ known) = bytes_eq a addr || is_known addr known

unfoldable pub add_known : Bytes → List Bytes → List Bytes
unfolding is_known
add_known addr known = if is_known addr known then known else known ++ (addr ∷ [])

unfoldable pub add_all : List NodeInfo → List Bytes → List Bytes
unfolding add_known
add_all [] known = known
add_all (n ∷ nodes) known = add_all nodes (add_known n.address known)

unfoldable pub followers_of : Bytes → List NodeInfo → List Bytes
followers_of leader [] = []
followers_of leader (n ∷ nodes) =
    let rest = followers_of leader nodes in
    if bytes_eq n.address leader then rest else n.address ∷ rest

unfoldable pub take_topology : TopologyResponse → Client → Client
unfolding add_all followers_of
take_topology t c = record c {
  known_addrs = add_all t.nodes c.known_addrs;
  leader_addr = t.leader_addr;
  followers = followers_of t.leader_addr t.nodes;
}

-- `connect`, over the addresses that were known when it began: whether a leader was found.
abbrev pub after_fetch : (Client → Bool × Client) → Option TopologyResponse × Client → Bool × Client
after_fetch more (none, c) = more c
after_fetch more (some t, c) =
    if bytes_eq t.leader_addr [] then more (take_topology t c) else (true, take_topology t c)

unfoldable pub connect_by : Network → List Bytes → Client → Bool × Client
unfolding fetch_topology take_topology
connect_by net [] c = (false, c)
connect_by net (addr ∷ addrs) c = after_fetch (connect_by net addrs) (fetch_topology net addr c)

unfoldable pub connect : Network → Client → Bool × Client
unfolding connect_by
connect net c = connect_by net c.known_addrs c

-- `waitForLeader`
abbrev pub after_connect : (Client → Bool × Client) → Bool × Client → Bool × Client
after_connect more (found, c) =
    if found && not (bytes_eq c.leader_addr []) then (true, c) else more c

unfoldable pub wait_rounds : ℕ → Network → Client → Bool × Client
unfolding connect
wait_rounds zero net c = (false, c)
wait_rounds (suc n) net c = after_connect (wait_rounds n net) (connect net c)

abbrev pub wait_for_leader : Network → Client → Bool × Client
wait_for_leader = wait_rounds 15

-- `pickTarget`: `rand` is `rand.Intn`, at the `i`-th request.
unfoldable pub address_at : ℕ → List Bytes → Bytes
address_at i [] = []
address_at zero (a ∷ l) = a
address_at (suc i) (a ∷ l) = address_at i l

unfoldable pub pick_target : (ℕ → ℕ → ℕ) → Bool → Client → Bytes
unfolding address_at
pick_target rand is_write c =
    if is_write
    then c.leader_addr
    else if ltb 0 (length c.followers)
    then address_at (rand (length c.made) (length c.followers)) c.followers
    else c.leader_addr

pub data ClientError : Type 0 where
  no_leader unavailable : ClientError

abbrev pub Executed : Type 0
Executed = Outcome ClientError Message × Client

abbrev pub is_write : Message → Bool
is_write msg = (op_code msg == op_set) || (op_code msg == op_delete)

-- `execute`: an attempt without a target waits for a leader, and one on which the node is not
-- reached forgets the leader and waits.
abbrev pub after_wait : (Client → Executed) → Bool × Client → Executed
after_wait more (found, c) = if found then more c else (err no_leader, c)

abbrev pub after_send : (Client → Executed) → Network → Option Message × Client → Executed
after_send more net (some resp, c) = (ok resp, c)
after_send more net (none, c) = more (wait_for_leader net (record c { leader_addr = [] })).1

unfoldable pub attempts : ℕ → Network → (ℕ → ℕ → ℕ) → Message → Client → Executed
unfolding pick_target wait_rounds send_to_node
attempts zero net rand msg c = (err unavailable, c)
attempts (suc n) net rand msg c =
    let target = pick_target rand (is_write msg) c in
    if bytes_eq target []
    then after_wait (attempts n net rand msg) (wait_for_leader net c)
    else after_send (attempts n net rand msg) net (send_to_node net target msg c)

unfoldable pub execute : Network → (ℕ → ℕ → ℕ) → Message → Client → Executed
unfolding attempts
execute = attempts 8

-- `strings.Fields`, on ASCII text
abbrev pub begins_word : Bytes → Bool
begins_word [] = false
begins_word (c ∷ s) = not (is_space c)

abbrev pub put_first : ℕ → List Bytes → List Bytes
put_first c [] = (c ∷ []) ∷ []
put_first c (w ∷ ws) = (c ∷ w) ∷ ws

unfoldable pub fields : Bytes → List Bytes
fields [] = []
fields (c ∷ s) =
    let rest = fields s in
    if is_space c then rest else if begins_word s then put_first c rest else (c ∷ []) ∷ rest

-- `strings.Join(parts, " ")`
unfoldable pub join : List Bytes → Bytes
join [] = []
join (w ∷ []) = w
join (w ∷ v ∷ ws) = w ++ (32 ∷ join (v ∷ ws))

pub data CommandError : Type 0 where
  usage_get usage_set usage_del : CommandError
  unknown_command : Bytes → CommandError

-- "GET"
abbrev pub word_get : Bytes
word_get = 71 ∷ 69 ∷ 84 ∷ []

-- "SET"
abbrev pub word_set : Bytes
word_set = 83 ∷ 69 ∷ 84 ∷ []

-- "DEL"
abbrev pub word_del : Bytes
word_del = 68 ∷ 69 ∷ 76 ∷ []

-- "exit"
abbrev pub word_exit : Bytes
word_exit = 101 ∷ 120 ∷ 105 ∷ 116 ∷ []

-- "quit"
abbrev pub word_quit : Bytes
word_quit = 113 ∷ 117 ∷ 105 ∷ 116 ∷ []

-- "topology"
abbrev pub word_topology : Bytes
word_topology = 116 ∷ 111 ∷ 112 ∷ 111 ∷ 108 ∷ 111 ∷ 103 ∷ 121 ∷ []

-- The parts of a command behind its name.
abbrev pub get_command : List Bytes → Outcome CommandError Message
get_command (key ∷ []) = ok (get_request (record { key = key }))
get_command _ = err usage_get

abbrev pub set_command : List Bytes → Outcome CommandError Message
set_command (key ∷ v ∷ vs) = ok (set_request (record { key = key; value = join (v ∷ vs); ttl = 0 }))
set_command _ = err usage_set

abbrev pub del_command : List Bytes → Outcome CommandError Message
del_command (key ∷ []) = ok (delete_request (record { key = key }))
del_command _ = err usage_del

-- `parseCommand`: without a part, `parts[0]` is out of range.
abbrev pub by_parts : List Bytes → Outcome CommandError Message
by_parts [] = panic
by_parts (name ∷ parts) =
    if bytes_eq (map upper name) word_get
    then get_command parts
    else if bytes_eq (map upper name) word_set
    then set_command parts
    else if bytes_eq (map upper name) word_del
    then del_command parts
    else err (unknown_command name)

unfoldable pub parse_command : Bytes → Outcome CommandError Message
unfolding fields join
parse_command input = by_parts (fields input)

-- What `main` does with a line.
pub data Line : Type 0 where
  nothing leave show_topology : Line
  run : Message → Line
  refused : CommandError → Line
  crashed : Line

abbrev pub line_of : Outcome CommandError Message → Line
line_of (ok msg) = run msg
line_of (err e) = refused e
line_of panic = crashed

unfoldable pub read_line : Bytes → Line
unfolding parse_command
read_line input =
    let command = trim_space input in
    if bytes_eq command []
    then nothing
    else if bytes_eq (map lower command) word_exit || bytes_eq (map lower command) word_quit
    then leave
    else if bytes_eq (map lower command) word_topology
    then show_topology
    else line_of (parse_command command)
