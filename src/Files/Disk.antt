-- ===== src/Files/Disk.antt =====
-- backend/src/files/file_manager_service.cpp: the file system that the service works on, and what the
-- calls of std::filesystem and std::ofstream do to it. A path here is canonical up to its last name.
use space_station.Prelude.{
  Bool, Option, ap, drop, false, if◌then◌else◌, inl, inr, length, none, not, refl, some, true, ◌&&◌,
  ◌++◌, ◌||◌, ◌∙◌, ◌≡◌, ◌≢◌, ◌⊎◌,
}
use space_station.Prelude.Bytes.{Bytes}
use space_station.Files.Paths.{path_eq_refl, path_eq_apart, path_eq, FilePath, is_within}

-- What stands at a path. A symbolic link holds the path that following it leads to.
pub data Node : Type 0 where
  file : Bytes → Node
  directory : Node
  symlink : FilePath → Node
  other : Node

abbrev pub Fs : Type 0
Fs = FilePath → Option Node

unfoldable pub put : Fs → FilePath → Option Node → Fs
put fs p n = λ q. if path_eq q p then n else fs q

abbrev pub target_of : FilePath → Option Node → FilePath
target_of p (some (symlink q)) = q
target_of p none = p
target_of p (some (file b)) = p
target_of p (some directory) = p
target_of p (some other) = p

-- Where a call that follows links ends.
unfoldable pub follow : Fs → FilePath → FilePath
follow fs p = target_of p (fs p)

abbrev pub bytes_of : Option Node → Option Bytes
bytes_of (some (file b)) = some b
bytes_of none = none
bytes_of (some directory) = none
bytes_of (some (symlink q)) = none
bytes_of (some other) = none

abbrev pub is_directory : Option Node → Bool
is_directory (some directory) = true
is_directory none = not true
is_directory (some (file b)) = not true
is_directory (some (symlink q)) = not true
is_directory (some other) = not true

abbrev pub exists_here : Option Node → Bool
exists_here none = not true
exists_here (some n) = true

-- The file at a path as a call that follows links reads it.
unfoldable pub read_file : Fs → FilePath → Option Bytes
read_file fs p = bytes_of (fs (follow fs p))

-- Whether an std::ofstream can open the path: a file, or a new one.
unfoldable pub is_writable : Fs → FilePath → Bool
is_writable fs p = not (exists_here (fs (follow fs p))) || exists_file (read_file fs p)
  where
    exists_file : Option Bytes → Bool
    exists_file none = not true
    exists_file (some b) = true

unfoldable pub write_file : Fs → FilePath → Bytes → Fs
write_file fs p b = put fs (follow fs p) (some (file b))

-- std::filesystem::rename of what is not a directory.
unfoldable pub move_entry : Fs → FilePath → FilePath → Fs
move_entry fs p q = put (put fs q (fs p)) p none

pub put-same : (fs : Fs) (p : FilePath) (n : Option Node) → put fs p n p ≡ n
unfolding put
put-same fs p n = rw (path_eq_refl p) refl

pub put-apart : (fs : Fs) (p q : FilePath) (n : Option Node) → q ≢ p → put fs p n q ≡ fs q
unfolding put
put-apart fs p q n h = rw (path_eq_apart q p h) refl

-- Nothing, or a file.
abbrev pub Plain : Fs → FilePath → Type 0
Plain fs p = (fs p ≡ none) ⊎ ((b : Bytes) × (fs p ≡ some (file b)))

pub follow-Plain : (fs : Fs) (p : FilePath) → Plain fs p → follow fs p ≡ p
unfolding follow
follow-Plain fs p (inl e) = ap (target_of p) e
follow-Plain fs p (inr (b, e)) = ap (target_of p) e

pub read_file-file :
    (fs : Fs) (p : FilePath) (b : Bytes) → fs p ≡ some (file b) → read_file fs p ≡ some b
unfolding read_file
read_file-file fs p b e = ap (λ q. bytes_of (fs q)) (follow-Plain fs p (inr (b, e))) ∙ ap bytes_of e

pub is_writable-Plain : (fs : Fs) (p : FilePath) → Plain fs p → is_writable fs p ≡ true
unfolding is_writable read_file
is_writable-Plain fs p (inl e) = rw (follow-Plain fs p (inl e), e) refl
is_writable-Plain fs p (inr (b, e)) = rw (follow-Plain fs p (inr (b, e)), e) refl

pub write_file-Plain :
    (fs : Fs) (p : FilePath) (b : Bytes) → Plain fs p → write_file fs p b ≡ put fs p (some (file b))
unfolding write_file
write_file-Plain fs p b h = ap (λ q. put fs q (some (file b))) (follow-Plain fs p h)

-- What a call that handles a tree reaches, of the paths below its root: all of them, or some, before it
-- fails.
abbrev pub Reached : Type 0
Reached = Option (FilePath → Bool)

abbrev pub reaches : Reached → FilePath → Bool
reaches none rest = true
reaches (some reached) rest = reached rest

abbrev pub fails : Reached → Bool
fails none = not true
fails (some reached) = true

-- std::filesystem::remove_all
unfoldable pub remove_tree : Reached → Fs → FilePath → Fs
remove_tree reached fs p =
    λ q. if is_within q p && reaches reached (drop (length p) q) then none else fs q

-- std::filesystem::copy of a tree with its symbolic links, which does not overwrite.
unfoldable pub copy_tree : Reached → Fs → FilePath → FilePath → Fs
copy_tree reached fs source target = λ q.
    if is_within q target && not (exists_here (fs q)) && reaches reached (drop (length target) q)
    then fs (source ++ drop (length target) q)
    else fs q

-- std::filesystem::rename, to a path where nothing is or what may be overwritten.
unfoldable pub move_tree : Fs → FilePath → FilePath → Fs
move_tree fs source target = λ q.
    if is_within q target
    then fs (source ++ drop (length target) q)
    else if is_within q source
    then none
    else fs q

-- Outside the trees.
pub remove_tree-apart :
    (reached : Reached) (fs : Fs) (p q : FilePath)
    → is_within q p ≡ false
    → remove_tree reached fs p q ≡ fs q
unfolding remove_tree
remove_tree-apart reached fs p q h = rw h refl

pub copy_tree-apart :
    (reached : Reached) (fs : Fs) (source target q : FilePath)
    → is_within q target ≡ false
    → copy_tree reached fs source target q ≡ fs q
unfolding copy_tree
copy_tree-apart reached fs source target q h = rw h refl

pub move_tree-apart :
    (fs : Fs) (source target q : FilePath)
    → is_within q target ≡ false
    → is_within q source ≡ false
    → move_tree fs source target q ≡ fs q
unfolding move_tree
move_tree-apart fs source target q h k = rw (h, k) refl
