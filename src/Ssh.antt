-- ===== src/Ssh.antt =====
-- internal/sshclient: the part of the program that runs SSH sessions.
pub mod RingBuffer
pub mod KnownHosts
pub mod Upload
pub mod UploadPlan
pub mod Sftp
pub mod Actions
pub mod Commit
pub mod SpeedMeter
pub mod Jobs
pub mod RemoteRoot
pub mod Connection
