-- ===== src/HashMap.antt =====
-- The chained hash table of utils/hashmap.c: the table and its operations. Keys and values are
-- pointers, numbers of which 0 is NULL; the bytes behind a key are those of a memory that does not
-- change while the table holds the key. Every 32-bit computation wraps as the code's does.
pub mod Keys
pub mod Chain
pub mod Buckets
pub mod Table
pub mod Life
