-- ===== src/TopicUtils.antt =====
-- src/TopicUtils.cc: which names are valid, and how a topic's full name is put together.
pub mod Validity
pub mod Names
pub mod FullNames
use ign_transport_git.Base.{
  ℕ, Bool, true, false, not, ◌&&◌, ◌||◌, ◌==◌, Option, none, some, [], ◌∷◌, ◌++◌, is_empty,
  if◌then◌else◌, Text, text_eq, bytes,
}

-- `s.find(c) != npos` for a single character.
unfoldable pub has_char : ℕ → Text → Bool
has_char c [] = false
has_char c (x ∷ s) = x == c || has_char c s

-- `s.find("//") != npos`: `after` says whether the character before was a slash.
unfoldable pub has_double_slash : Bool → Text → Bool
has_double_slash after [] = false
has_double_slash after (x ∷ s) = (after && x == b'/') || has_double_slash (x == b'/') s

unfoldable pub is_valid_namespace : Text → Bool
is_valid_namespace ns =
    if text_eq ns (bytes "/")
    then false
    else if has_char b'~' ns
    then false
    else if has_char b' ' ns
    then false
    else if has_double_slash false ns
    then false
    else if has_char b'@' ns
    then false
    else true

unfoldable pub is_valid_topic : Text → Bool
is_valid_topic topic = is_valid_namespace topic && not (is_empty topic)

-- `!s.empty() && s.front() == '/'`.
unfoldable pub starts_with_slash : Text → Bool
starts_with_slash [] = false
starts_with_slash (x ∷ s) = x == b'/'

-- `!s.empty() && s.back() == '/'`.
unfoldable pub ends_with_slash : Text → Bool
ends_with_slash [] = false
ends_with_slash (x ∷ []) = x == b'/'
ends_with_slash (x ∷ y ∷ s) = ends_with_slash (y ∷ s)

unfoldable pub pop_back : Text → Text
pop_back [] = []
pop_back (x ∷ []) = []
pop_back (x ∷ y ∷ s) = x ∷ pop_back (y ∷ s)

unfoldable pub drop_trailing_slash : Text → Text
drop_trailing_slash s = if ends_with_slash s then pop_back s else s

-- A leading slash for a partition that is not empty.
unfoldable pub root_partition : Text → Text
root_partition partition =
    if not (is_empty partition) && not (starts_with_slash partition)
    then b'/' ∷ partition
    else partition

-- The partition: a leading slash is added, a trailing one removed.
unfoldable pub normal_partition : Text → Text
normal_partition partition = drop_trailing_slash (root_partition partition)

-- The namespace: a trailing slash is added, then a leading one.
unfoldable pub add_trailing_slash : Text → Text
add_trailing_slash ns = if ends_with_slash ns then ns else ns ++ b'/' ∷ []

unfoldable pub add_leading_slash : Text → Text
add_leading_slash ns = if starts_with_slash ns then ns else b'/' ∷ ns

unfoldable pub normal_ns : Text → Text
normal_ns ns = add_leading_slash (add_trailing_slash ns)

-- The topic behind its namespace, unless it is absolute.
unfoldable pub relative_name : Text → Text → Text
relative_name ns topic = if starts_with_slash topic then topic else ns ++ topic

-- `none` where the call returns false; `_name` is not written then.
unfoldable pub get_fully_qualified_name : Text → Text → Text → Option Text
get_fully_qualified_name partition ns topic =
    if not (is_valid_namespace partition)
      || not (is_valid_namespace ns)
      || not (is_valid_topic topic)
    then none
    else some (
        (b'@' ∷ normal_partition partition ++ b'@' ∷ [])
        ++ relative_name (normal_ns ns) (drop_trailing_slash topic))
