-- ===== src/Tests.antt =====
-- Runs of the model on concrete inputs, a module for each part of the program.
mod StorageRuns
mod PolicyRuns
mod SanitizeRuns
mod SocketRuns
mod ListenerRuns
mod RestRuns
mod LuaRuns
mod MetricRuns
mod Codec
mod FileRuns
mod Pop3Runs
mod ExtensionRuns
mod RetentionRuns
mod SmtpRuns
mod ManagerRuns
mod MsghubRuns
