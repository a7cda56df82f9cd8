-- ===== src/Fs/Total.antt =====
-- fetchStat adds up every file and directory below a path.
use Prim.Native.Nat.{◌%◌}
use native.Mathlib.Nat.{add-zero}
use singularity_cri.Base.{◌≡◌, refl, ◌∙◌, ℕ, ◌+◌, arith}
use singularity_cri.Base.Result.{ok}
use singularity_cri.Fs.{
  Entry, Entries, file, directory, unreadable, none_left, then_entry, plus, fetch_entries,
  fetch_entry, fetch_stat,
}

abbrev mutual
  -- Every directory below can be read.
  pub IsReadable : Entry → Type 0
  IsReadable (file size) = Unit
  IsReadable (directory size es) = AreReadable es
  IsReadable (unreadable e) = ⊥

  pub AreReadable : Entries → Type 0
  AreReadable none_left = Unit
  AreReadable (then_entry e es) = IsReadable e × AreReadable es

-- The sizes of all files and directories, and how many there are.
mutual
  pub total_bytes : Entry → ℕ
  total_bytes (file size) = size
  total_bytes (directory size es) = size + sum_bytes es
  total_bytes (unreadable e) = 0

  sum_bytes : Entries → ℕ
  sum_bytes none_left = 0
  sum_bytes (then_entry e es) = total_bytes e + sum_bytes es

mutual
  pub total_inodes : Entry → ℕ
  total_inodes (file size) = 1
  total_inodes (directory size es) = 1 + sum_inodes es
  total_inodes (unreadable e) = 0

  sum_inodes : Entries → ℕ
  sum_inodes none_left = 0
  sum_inodes (then_entry e es) = total_inodes e + sum_inodes es

-- 2 ^ 64
abbrev pub m64 : ℕ → ℕ
m64 n = n % 18446744073709551616

-- What fetchStat finds of one entry, up to a multiple of 2 ^ 64.
record Found (e : Entry) : Type 0 where
  bytes : ℕ
  inodes : ℕ
  found : fetch_entry e ≡ ok (bytes, inodes)
  all_bytes : m64 bytes ≡ m64 (total_bytes e)
  all_inodes : m64 inodes ≡ m64 (total_inodes e)

m64-plus : (b x t u : ℕ) → m64 x ≡ m64 t → m64 ((m64 b + x) + u) ≡ m64 (b + (t + u))
m64-plus b x t u h = omega arith

plus-m64 : (t u : ℕ) → plus (m64 (0 + t)) u ≡ m64 (u + t)
plus-m64 t u = omega arith

mutual
  unfolding fetch_entries fetch_entry total_bytes total_inodes

  entry-Found : (e : Entry) → IsReadable e → Found e
  entry-Found (file size) r = record {
    bytes = size;
    inodes = 1;
    found = refl;
    all_bytes = refl;
    all_inodes = refl;
  }
  entry-Found (directory size es) r = record {
    bytes = plus (m64 (0 + sum_bytes es)) size;
    inodes = plus (m64 (0 + sum_inodes es)) 1;
    found = rw (entries_found es 0 0 r);
    all_bytes = omega arith;
    all_inodes = omega arith;
  }
  entry-Found (unreadable e) r = absurd r

  entries_found :
      (es : Entries) (b i : ℕ)
      → AreReadable es
      → fetch_entries es (m64 b) (m64 i) ≡ ok (m64 (b + sum_bytes es), m64 (i + sum_inodes es))
  entries_found none_left b i r = rw (add-zero b, add-zero i)
  entries_found (then_entry e es) b i r =
      let one = entry-Found e r.0 in
      rw (one.found) (
        entries_found es (m64 b + one.bytes) (m64 i + one.inodes) r.1
        ∙ rw (
          m64-plus b one.bytes (total_bytes e) (sum_bytes es) one.all_bytes,
          m64-plus i one.inodes (total_inodes e) (sum_inodes es) one.all_inodes,
        ))

-- Of a directory all of which can be read, fetchStat gives the sum of the sizes of all files and
-- directories in it, itself included, and their number, each modulo 2 ^ 64.
pub fetch_stat-total :
    (size : ℕ) (es : Entries)
    → AreReadable es
    → fetch_stat (directory size es)
      ≡ ok (m64 (total_bytes (directory size es)), m64 (total_inodes (directory size es)))
unfolding fetch_stat total_bytes total_inodes
fetch_stat-total size es r =
    rw (entries_found es 0 0 r, plus-m64 (sum_bytes es) size, plus-m64 (sum_inodes es) 1)
