-- ===== src/Os/Mounts.antt =====
-- The text of /proc/mounts, as src/discard.rs, src/mount_path.rs and src/quota.rs read it.
use fastenv.Base.{
  Text, split, is_whitespace, Bool, false, List, [], ◌∷◌, ◌++◌, ◌==◌, nat_Eq, list_Eq, any, map,
  list_eq, if◌then◌else◌, Option, none, some,
}
use fastenv.Os.Paths.{FilePath, display}

-- `s.split_whitespace()`: `word` is the word being read.
abbrev pub flush : Text → List Text → List Text
flush [] rest = rest
flush (c ∷ word) rest = (c ∷ word) ∷ rest

unfoldable pub words : Text → Text → List Text
words word [] = flush word []
words word (c ∷ s) = if is_whitespace c then flush word (words [] s) else words (word ++ c ∷ []) s

unfoldable pub split_whitespace : Text → List Text
unfolding words is_whitespace
split_whitespace = words []

-- The pieces of `s.lines()`: the last is dropped if it is empty, and a final `\r` goes too.
abbrev pub drop_last_empty : List Text → List Text
drop_last_empty [] = []
drop_last_empty (l ∷ []) = if l == [] then [] else l ∷ []
drop_last_empty (l ∷ m ∷ ls) = l ∷ drop_last_empty (m ∷ ls)

abbrev pub strip_return : Text → Text
strip_return [] = []
strip_return (c ∷ []) = if c == 13 then [] else c ∷ []
strip_return (c ∷ d ∷ s) = c ∷ strip_return (d ∷ s)

unfoldable pub lines : Text → List Text
unfolding split
lines s = map strip_return (drop_last_empty (split 10 s))

-- The second field of a line.
abbrev pub mountpoint_of : List Text → Option Text
mountpoint_of (device ∷ mountpoint ∷ rest) = some mountpoint
mountpoint_of (device ∷ []) = none
mountpoint_of [] = none

abbrev pub matches : Text → Option Text → Bool
matches path none = false
matches path (some mp) = mp == path

-- What `is_mounted` looks for in the text of /proc/mounts.
unfoldable pub is_listed : FilePath → Text → Bool
unfolding lines split_whitespace list_eq
is_listed path mounts =
    any (λ line. matches (display path) (mountpoint_of (split_whitespace line))) (lines mounts)
