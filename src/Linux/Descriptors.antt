-- ===== src/Linux/Descriptors.antt =====
-- src/platform/linux/process_linux.cpp: the loop of getOpenFileCount over /proc/<pid>/fd, which
-- readSelfOpenFdCount of src/client_resource.cpp repeats.
use phm.Base.{
  ℕ, suc, ◌+◌, ◌-◌, ◌%◌, ◌^◌, ◌<◌, ◌≡◌, ◌∙◌, ltb, if◌then◌else◌, List, [], ◌∷◌, Option, none, some,
  arith,
}

-- d_type of an entry.
pub data DirentType : Type 0 where
  dt_dir dt_lnk dt_unknown dt_other : DirentType

-- The loop of readdir, with count before it.
unfoldable pub count_links : List DirentType → ℕ → ℕ
count_links [] count = count
count_links (dt_lnk ∷ rest) count = count_links rest ((count + 1) % 2 ^ 32)
count_links (dt_unknown ∷ rest) count = count_links rest ((count + 1) % 2 ^ 32)
count_links (dt_dir ∷ rest) count = count_links rest count
count_links (dt_other ∷ rest) count = count_links rest count

-- none if opendir fails.
unfoldable pub open_count : Option (List DirentType) → ℕ
unfolding count_links
open_count none = 0
open_count (some entries) =
    let count = count_links entries 0 in if ltb 2 count then count - 2 else 0

-- What procfs lists for n open files: . and .. are directories, and every open file is a link.
pub data Lists : ℕ → List DirentType → Type 0 where
  nothing : Lists 0 []
  dot : {n : ℕ} {entries : List DirentType} → Lists n entries → Lists n (dt_dir ∷ entries)
  link : {n : ℕ} {entries : List DirentType} → Lists n entries → Lists (suc n) (dt_lnk ∷ entries)

count_links-Lists :
    {n : ℕ} {entries : List DirentType} (k : ℕ)
    → Lists n entries
    → k + n < 2 ^ 32
    → count_links entries k ≡ k + n
unfolding count_links
count_links-Lists k nothing h = omega arith
count_links-Lists k (dot l) h = count_links-Lists k l h
count_links-Lists k (link l) h =
    let small : (k + 1) % 2 ^ 32 ≡ k + 1 = omega (arith, h) in
    rw small (count_links-Lists (k + 1) l (omega (arith, h)) ∙ omega arith)

-- The count of the open files of a process is two less than there are: the two that are taken off
-- for . and .. were not counted, since those are directories.
pub open_count-Lists :
    (n : ℕ) (entries : List DirentType)
    → Lists n entries
    → n < 2 ^ 32
    → open_count (some entries) ≡ n - 2
unfolding open_count
open_count-Lists n entries l h = ground (arith, count_links-Lists 0 l (omega (arith, h)))
