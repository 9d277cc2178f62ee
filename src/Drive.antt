-- ===== src/Drive.antt =====
-- frontend/src/fe_server.cc: the drive, files and folders in the storage.
pub mod Files
