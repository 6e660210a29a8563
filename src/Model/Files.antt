-- ===== src/Model/Files.antt =====
-- The files that the program keeps its settings in, without their text: whether one can be read, and
-- whether it can be replaced. Every replacement is a rename of a complete new file.
use lab_remote_go.Common.{Bool}

pub record Disk : Type 0 where
  pub reads : Bool
  pub writes : Bool
