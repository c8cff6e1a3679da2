-- ===== src/Tests/Names.antt =====
-- Concrete names of src/TopicUtils.cc.
use ign_transport_git.Base.{◌≡◌, ◌≢◌, ◌↔◌, refl, true, some, [], ◌∷◌, ◌++◌, Text, text_eq, bytes}
use ign_transport_git.TopicUtils.{
  is_valid_namespace, is_valid_topic, get_fully_qualified_name, normal_partition, normal_ns,
  relative_name, drop_trailing_slash, has_char, has_double_slash, ends_with_slash,
  starts_with_slash, root_partition, pop_back, add_trailing_slash, add_leading_slash,
}
use ign_transport_git.TopicUtils.Validity.{IsPlain, HasNoDoubleSlash, is_valid_namespace_iff}
use ign_transport_git.TopicUtils.FullNames.{IsPartition, IsAbsolute, get_fully_qualified_name_shape}

is_valid_namespace_iff_example :
    (is_valid_namespace (bytes "/a/b") ≡ true)
    ↔ ((bytes "/a/b" ≢ bytes "/") × IsPlain (bytes "/a/b") × HasNoDoubleSlash (bytes "/a/b"))
is_valid_namespace_iff_example = is_valid_namespace_iff (bytes "/a/b")

full_name :
    get_fully_qualified_name (bytes "p") (bytes "ns") (bytes "t/") ≡ some (bytes "@/p@/ns/t")
unfolding get_fully_qualified_name is_valid_namespace text_eq has_char has_double_slash
    is_valid_topic normal_partition drop_trailing_slash ends_with_slash root_partition
    starts_with_slash relative_name pop_back normal_ns add_trailing_slash add_leading_slash
full_name = refl

get_fully_qualified_name_shape_example :
    (partition : Text) × (topic : Text) × (bytes "@/p@/ns/t"
      ≡ (b'@' ∷ partition ++ b'@' ∷ []) ++ topic)
    × IsPartition partition
    × IsAbsolute topic
    × (is_valid_topic topic ≡ true)
get_fully_qualified_name_shape_example =
    get_fully_qualified_name_shape (bytes "p") (bytes "ns") (bytes "t/") full_name
