-- ===== src/FileSystem.antt =====
-- The file systems that `cerulean` gives access to: a path is the file system it was made from, with
-- the names that the operator `/` put after it. What a call on a path does is not part of the program;
-- World has the replies.
use simple_cwl_xenon_service.Prelude.{String, Bool, Option, ℕ}

-- The file exchange of the configuration, `LocalFileSystem()`, `WebdavFileSystem(url)`, and the compute
-- resource.
pub data Root : Type 0 where
  exchange local remote : Root
  webdav : (url : String) → Root

-- `child p name` is `p / name`.
pub data FilePath : Type 0 where
  at_root : Root → FilePath
  child : FilePath → String → FilePath

-- The calls on paths, with the arguments that the program gives.
pub data FileCall : Type 0 where
  mkdir : FilePath → (mode : Option ℕ) → (parents exists_ok : Bool) → FileCall
  rmdir_recursive : FilePath → FileCall
  exists is_dir : FilePath → FileCall
  read_bytes read_text : FilePath → FileCall
  write_bytes : FilePath → (content : String) → FileCall
  write_text : FilePath → (content : String) → FileCall
  copy : (source target : FilePath) → FileCall
  copy_always : (source target : FilePath) → (copy_into copy_permissions : Bool) → FileCall
  iterdir : FilePath → FileCall
  walk : FilePath → FileCall
  chmod : FilePath → (mode : ℕ) → FileCall
  unlink : FilePath → FileCall
