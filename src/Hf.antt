-- ===== src/Hf.antt =====
-- pkg/hf: names of repositories.
pub mod Repo
