-- ===== src/Local/Store/Lock.antt =====
-- plugins/ipam/local/store/lock.go: the lock of the store. The file system and the mutex on a file are
-- parameters.
use my_cni.Prelude.{Bool, if◌then◌else◌}
use my_cni.Text.{Bytes, codes}
use my_cni.Exec.{Exec, pure, ◌>>=◌}

-- `os.Stat` with `IsDir`, `path.Join`, and the package `filemutex`.
pub record FileMutex : Type 1 where
  pub State : Type 0
  pub Handle : Type 0
  pub is_dir : Bytes → Exec State Bool
  pub join : Bytes → Bytes → Bytes
  pub new : Bytes → Exec State Handle
  pub close : Handle → Exec State (Unit {0})
  pub lock : Handle → Exec State (Unit {0})
  pub unlock : Handle → Exec State (Unit {0})
  pub rlock : Handle → Exec State (Unit {0})
  pub runlock : Handle → Exec State (Unit {0})

pub record FileLock (M : FileMutex) : Type 0 where
  pub f : M.Handle

module _ (M : FileMutex) where
  -- A directory is locked by the file `lock` inside it.
  unfoldable pub new_file_lock : Bytes → Exec M.State (FileLock M)
  new_file_lock lock_path = do
    dir ← M.is_dir lock_path
    f ← M.new (if dir then M.join lock_path (codes "lock") else lock_path)
    pure (record { f = f })

  unfoldable pub close_lock : FileLock M → Exec M.State (Unit {0})
  close_lock l = M.close l.f

  unfoldable pub lock_file : FileLock M → Exec M.State (Unit {0})
  lock_file l = M.lock l.f

  unfoldable pub unlock_file : FileLock M → Exec M.State (Unit {0})
  unlock_file l = M.unlock l.f

  unfoldable pub rlock_file : FileLock M → Exec M.State (Unit {0})
  rlock_file l = M.rlock l.f

  unfoldable pub runlock_file : FileLock M → Exec M.State (Unit {0})
  runlock_file l = M.runlock l.f
