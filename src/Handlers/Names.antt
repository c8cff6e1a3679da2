-- ===== src/Handlers/Names.antt =====
-- What src/Node.cc and the handlers of include/ignition/transport do to full names: they erase all up
-- to the last at sign.
use ign_transport_git.Base.{
  ℕ, true, false, ◌≡◌, sym, ap, ◌∙◌, some, [], ◌∷◌, ◌++◌, Text, arith, ==_iff,
}
use ign_transport_git.TopicUtils.{
  has_char, drop_trailing_slash, normal_partition, normal_ns, relative_name,
  get_fully_qualified_name,
}
use ign_transport_git.TopicUtils.Validity.{has_char-append}
use ign_transport_git.TopicUtils.FullNames.{
  join, valid_all, valid_name, relative_name_fixed, relative_name-IsAbsolute,
  is_valid_topic-IsAbsolute,
}
use ign_transport_git.Handlers.{after_last, topic_name}

pub has_char_middle : (c : ℕ) (s t : Text) → has_char c ((s ++ c ∷ []) ++ t) ≡ true
unfolding has_char
has_char_middle c s t =
    ground (arith, has_char-append c (s ++ c ∷ []) t, has_char-append c s (c ∷ []), ==_iff c c)

after_last-append :
    (c : ℕ) (s t : Text) → has_char c t ≡ false → after_last c ((s ++ c ∷ []) ++ t) ≡ t
unfolding after_last
after_last-append c [] t h = ground (arith, ==_iff c c)
after_last-append c (x ∷ s) t h = rw (has_char_middle c s t, after_last-append c s t h)

topic_name-join : (p t : Text) → has_char b'@' t ≡ false → topic_name (join p t) ≡ t
unfolding topic_name after_last
topic_name-join p t h = after_last-append b'@' (b'@' ∷ p) t h

-- The name without the partition is the topic with its namespace.
pub topic_name-get_fully_qualified_name :
    (p ns t : Text) {name : Text}
    → get_fully_qualified_name p ns t ≡ some name
    → topic_name name ≡ relative_name (normal_ns ns) (drop_trailing_slash t)
topic_name-get_fully_qualified_name p ns t h =
    let v = valid_all p ns t h in
    let a = relative_name-IsAbsolute ns t v.1 v.2 in
    ap topic_name v.3 ∙ topic_name-join _ _ a.clean.at_sign

-- The names that a node gives out, which have no partition, mean the same topics to it: the full name
-- of such a name is the full name that it came from.
pub get_fully_qualified_name-topic_name :
    (p ns t : Text) {name : Text}
    → get_fully_qualified_name p ns t ≡ some name
    → get_fully_qualified_name p ns (topic_name name) ≡ some name
get_fully_qualified_name-topic_name p ns t {name} h =
    let v = valid_all p ns t h in
    let a = relative_name-IsAbsolute ns t v.1 v.2 in
    ap (get_fully_qualified_name p ns) (topic_name-get_fully_qualified_name p ns t h)
    ∙ valid_name p ns _ v.0 v.1 (is_valid_topic-IsAbsolute _ a)
    ∙ ap (λ r. some (join (normal_partition p) r)) (relative_name_fixed _ _ a)
    ∙ ap some (sym v.3)
