-- ===== src/RateLimit/Tests.antt =====
-- Two requests of a client whose commands mix.
