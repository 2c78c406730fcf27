-- ===== src/Tests.antt =====
-- The theorems applied to concrete inputs.
mod Uploads
mod Stores
mod Texts
mod Names
mod Resumes
mod Times
mod Configs
