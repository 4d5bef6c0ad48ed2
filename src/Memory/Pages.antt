-- ===== src/Memory/Pages.antt =====
-- memory/src/page_table.c: page tables, and the list of the frames in use.
pub mod Tables
pub mod Frames
