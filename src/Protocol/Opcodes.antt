-- ===== src/Protocol/Opcodes.antt =====
-- protocol/opcodes_table.go
use keva.Prelude.{ℕ}

abbrev pub op_get : ℕ
op_get = 0x01

abbrev pub op_set : ℕ
op_set = 0x02

abbrev pub op_delete : ℕ
op_delete = 0x03

abbrev pub op_get_response : ℕ
op_get_response = 0x04

abbrev pub op_set_response : ℕ
op_set_response = 0x05

abbrev pub op_delete_response : ℕ
op_delete_response = 0x06

abbrev pub op_topology_request : ℕ
op_topology_request = 0x10

abbrev pub op_topology_response : ℕ
op_topology_response = 0x11

abbrev pub op_replication_sync : ℕ
op_replication_sync = 0x20

abbrev pub op_replication_ack : ℕ
op_replication_ack = 0x21

abbrev pub op_replication_join : ℕ
op_replication_join = 0x22

abbrev pub op_heartbeat : ℕ
op_heartbeat = 0x30

abbrev pub op_heartbeat_ack : ℕ
op_heartbeat_ack = 0x31

abbrev pub op_vote_request : ℕ
op_vote_request = 0x40

abbrev pub op_vote_response : ℕ
op_vote_response = 0x41

abbrev pub op_error : ℕ
op_error = 0xFE
