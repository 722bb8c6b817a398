-- ===== src/SMutex/Exclusion.antt =====
-- core/smutex.rs: the owner is alone, and its field and its recursion are right.
