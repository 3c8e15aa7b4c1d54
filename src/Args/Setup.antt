-- ===== src/Args/Setup.antt =====
-- From the command line to what `main` starts the server with.
