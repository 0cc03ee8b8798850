-- ===== src/Tests.antt =====
-- Runs of the model on concrete inputs, and each of the results on one where its hypotheses hold.
mod Env
mod Config
mod Ssh
mod SshRun
mod Cli
mod Service
mod Main
mod Installed
mod Windows
mod Handover
