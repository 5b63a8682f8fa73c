-- ===== src/FileSystem.antt =====
-- The file system of the standard library, as an interface.
use netmon_polyglot.Alert.{Text}
use netmon_polyglot.Prelude.{◌≡◌, ℕ, List, Option, some}

-- The file system: `none` is an error. What was written to a file that was created before is read
-- from it. A text file is read whole.
pub record FileSystem : Type 1 where
  pub Disk : Type 0
  pub create : Disk → Text → Option Disk
  pub write : Disk → Text → List ℕ → Option Disk
  pub contents : Disk → Text → Option (List ℕ)
  pub read_to_string : Disk → Text → Option Text
  pub contents-write :
      (d d1 d2 : Disk) (path : Text) (bytes : List ℕ)
      → create d path ≡ some d1
      → write d1 path bytes ≡ some d2
      → contents d2 path ≡ some bytes
