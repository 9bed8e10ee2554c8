-- ===== src/Boot/Loaded.antt =====
-- What boot/main.c leaves in memory: the segments of the kernel file.
