-- ===== src/Fs.antt =====
-- pkg/fs/usage.go: how many bytes and entries a directory holds. `proc.ParentMount` and the reading of
-- directories are the parameter `Disk`; a directory that can be read is a tree.
pub mod Total
pub mod Watcher
use Prim.Native.Nat.{◌%◌}
use singularity_cri.Base.{ℕ, ◌+◌, List, [], ◌∷◌}
use singularity_cri.Base.Text.{Text}
use singularity_cri.Base.Result.{Result, ok, err, panic, Error, wrapf, ◌>>=◌, wrap}

mutual
  -- What is at a path: a file, a directory that can be read, or one that cannot. A size is the bits of
  -- an int64.
  pub data Entry : Type 0 where
    file : ℕ → Entry
    directory : ℕ → Entries → Entry
    unreadable : Error → Entry

  pub data Entries : Type 0 where
    none_left : Entries
    then_entry : Entry → Entries → Entries

-- The sum of two int64, and inodes++.
abbrev pub plus : ℕ → ℕ → ℕ
plus a b = (a + b) % 18446744073709551616

-- fetchStat on the directory with a size and entries, from the entries on: the sums so far come first.
mutual
  pub fetch_entries : Entries → ℕ → ℕ → Result (ℕ × ℕ)
  fetch_entries none_left bytes inodes = ok (bytes, inodes)
  fetch_entries (then_entry e es) bytes inodes =
      fetch_entry e >>= λ found. fetch_entries es (plus bytes found.0) (plus inodes found.1)

  -- The case of the loop for one entry.
  fetch_entry : Entry → Result (ℕ × ℕ)
  fetch_entry (file size) = ok (size, 1)
  fetch_entry (directory size es) = wrap "could not fetch info" (fetch_entries es 0 0) >>= λ found.
      ok (plus found.0 size, plus found.1 1)
  fetch_entry (unreadable e) = err (wrapf "could not fetch info" e)

-- fetchStat
unfoldable pub fetch_stat : Entry → Result (ℕ × ℕ)
unfolding fetch_entries fetch_entry
fetch_stat (file size) = err (wrapf "could not scan" (Error.errorf "not a directory"))
fetch_stat (directory size es) =
    fetch_entries es 0 0 >>= λ found. ok (plus found.0 size, plus found.1 1)
fetch_stat (unreadable e) = err e

pub record UsageInfo : Type 0 where
  pub mount_point : Text
  pub bytes : ℕ
  pub inodes : ℕ

-- Usage, on the mount point of a path and what is at the path
unfoldable pub usage : Result Text → Entry → Result UsageInfo
unfolding fetch_stat
usage mount entry = wrap "could not get mount point" mount >>= λ point.
    wrap "could not fetch fs stat" (fetch_stat entry) >>= λ found.
    ok (record { mount_point = point; bytes = found.0; inodes = found.1 })
