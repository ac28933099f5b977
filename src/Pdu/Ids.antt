-- ===== src/Pdu/Ids.antt =====
-- The tags and sizes of the messages: the constants at the head of pdu.rs.
use distributed_hash_table.Prelude.{ℕ, ◌+◌}

abbrev pub net_alive_id : ℕ
net_alive_id = 0

abbrev pub net_get_node_id : ℕ
net_get_node_id = 1

abbrev pub net_get_node_response_id : ℕ
net_get_node_response_id = 2

abbrev pub net_join_id : ℕ
net_join_id = 3

abbrev pub net_join_response_id : ℕ
net_join_response_id = 4

abbrev pub net_close_connection_id : ℕ
net_close_connection_id = 5

abbrev pub net_new_range_id : ℕ
net_new_range_id = 6

abbrev pub net_leaving_id : ℕ
net_leaving_id = 7

abbrev pub net_new_range_response_id : ℕ
net_new_range_response_id = 8

abbrev pub val_insert_id : ℕ
val_insert_id = 100

abbrev pub val_remove_id : ℕ
val_remove_id = 101

abbrev pub val_lookup_id : ℕ
val_lookup_id = 102

abbrev pub val_lookup_response_id : ℕ
val_lookup_response_id = 103

abbrev pub stun_lookup_id : ℕ
stun_lookup_id = 200

abbrev pub stun_response_id : ℕ
stun_response_id = 201

abbrev pub ssn_length : ℕ
ssn_length = 12

abbrev pub net_alive_size : ℕ
net_alive_size = 1

abbrev pub net_get_node_size : ℕ
net_get_node_size = 1

abbrev pub net_get_node_response_size : ℕ
net_get_node_response_size = 1 + 4 + 2

abbrev pub net_join_size : ℕ
net_join_size = 1 + 4 + 2 + 1 + 4 + 2

abbrev pub net_join_response_size : ℕ
net_join_response_size = 1 + 4 + 2 + 1 + 1

abbrev pub net_close_connection_size : ℕ
net_close_connection_size = 1

abbrev pub net_new_range_size : ℕ
net_new_range_size = 1 + 1 + 1

abbrev pub net_new_range_response_size : ℕ
net_new_range_response_size = 1

abbrev pub net_leaving_size : ℕ
net_leaving_size = 1 + 4 + 2

abbrev pub val_remove_size : ℕ
val_remove_size = 1 + ssn_length

abbrev pub val_lookup_size : ℕ
val_lookup_size = 1 + ssn_length + 4 + 2

abbrev pub stun_lookup_size : ℕ
stun_lookup_size = 1

abbrev pub stun_response_size : ℕ
stun_response_size = 1 + 4
