-- ===== src/Queue/Insert.antt =====
-- q_insert_head and q_insert_tail of queue.c.
pub mod Blocks
pub mod Head
pub mod Tail
pub mod Failure
