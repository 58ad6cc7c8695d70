-- ===== src/Walk.antt =====
-- src/sources.rs: `walk_tree`, over a snapshot of the directory tree.
use agent_transcript.Prelude.{
  ℕ, Bytes, codes, bytes_le, Option, none, some, List, [], ◌∷◌, ◌++◌, sort_by,
}

-- What `read_dir` yields of a directory, in its order, with what is in the directories below. Nothing is
-- read of a directory that does not exist or cannot be listed. A link is a file here, as its own type
-- is not that of a directory; an entry without a type or without metadata is unreadable.
pub data Entries : Type 0 where
  nothing : Entries
  folder : (name : Bytes) (inside rest : Entries) → Entries
  file : (name : Bytes) (modified : Option ℕ) (size : ℕ) (rest : Entries) → Entries
  unreadable : (rest : Entries) → Entries

pub record TreeRow : Type 0 where
  pub rel : Bytes
  pub mtime_ns : ℕ
  pub size : ℕ

-- A file without a time of modification after 1970 has the time 0.
abbrev pub mtime_or_zero : Option ℕ → ℕ
mtime_or_zero none = 0
mtime_or_zero (some modified) = modified

-- The rows of a directory whose path below the root is `parent`, empty for the root and with a slash at
-- its end otherwise.
unfoldable pub walk_rows : (parent : Bytes) → Entries → List TreeRow
walk_rows parent nothing = []
walk_rows parent (folder name inside rest) =
    walk_rows (parent ++ name ++ codes "/") inside ++ walk_rows parent rest
walk_rows parent (file name modified size rest) =
    record { rel = parent ++ name; mtime_ns = mtime_or_zero modified; size = size }
    ∷ walk_rows parent rest
walk_rows parent (unreadable rest) = walk_rows parent rest

-- `entries_of` is the snapshot below a root.
unfoldable pub walk_tree : (Bytes → Entries) → Bytes → List TreeRow
unfolding walk_rows
walk_tree entries_of root = sort_by (λ a b. bytes_le a.rel b.rel) (walk_rows [] (entries_of root))
