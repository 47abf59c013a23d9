-- ===== src/Tests/Names.antt =====
-- Names of channels, and the settings of an app.
