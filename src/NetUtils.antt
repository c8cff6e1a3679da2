-- ===== src/NetUtils.antt =====
-- src/NetUtils.cc: the address that a process gives to others, on a system with `getifaddrs`. What the
-- environment and the system's calls give are arguments.
pub mod Preference
use ign_transport_git.Base.{
  ℕ, ◌+◌, Bool, true, false, not, ◌&&◌, ◌||◌, ◌==◌, ltb, Option, none, some, List, [], ◌∷◌, ◌++◌,
  is_empty, length, if◌then◌else◌, Text, text_eq, bytes,
}
use ign_transport_git.TopicUtils.{has_char}

-- `!strncmp(prefix, s, n)`, with `n` the length of the prefix.
unfoldable pub starts_with : Text → Text → Bool
starts_with [] s = true
starts_with (x ∷ prefix) [] = false
starts_with (x ∷ prefix) (y ∷ s) = x == y && starts_with prefix s

unfoldable pub is_private_ip : Text → Bool
is_private_ip ip =
    starts_with (bytes "192.168") ip
    || starts_with (bytes "10.") ip
    || starts_with (bytes "169.254") ip

-- `gethostbyname` gives no host, or the addresses of one, in the text of `inet_ntoa`. `none` is the
-- result 1.
unfoldable pub hostname_to_ip : (Text → Option (List Text)) → Text → Option Text
hostname_to_ip gethostbyname hostname = elim (gethostbyname hostname) [
  | none ↦ none
  | some [] ↦ none
  | some (ip ∷ addresses) ↦ some ip
]

pub data Family : Type 0 where
  inet inet6 other_family : Family

-- An interface: the family of its address, if it has one, and what `getnameinfo` gives for it.
pub record Interface : Type 0 where
  pub family : Option Family
  pub name_info : Option Text

-- The end of the loop's body, for a text that is no loopback.
unfoldable pub prefer_ip : Bool → Text → Text → Text
prefer_ip is_inet6 ip preferred =
    if is_inet6 && is_empty preferred
    then ip
    else if is_private_ip ip && is_empty preferred
    then ip
    else if not (is_private_ip ip) && (is_private_ip preferred || is_empty preferred)
    then ip
    else preferred

unfoldable pub prefer_named : Bool → Option Text → Text → Text
prefer_named is_inet6 none preferred = preferred
prefer_named is_inet6 (some ip) preferred =
    if text_eq ip (bytes "127.0.0.1") || has_char b':' ip
    then preferred
    else prefer_ip is_inet6 ip preferred

-- The loop's body.
unfoldable pub prefer : Option Family → Option Text → Text → Text
prefer none info preferred = preferred
prefer (some inet) info preferred = prefer_named false info preferred
prefer (some inet6) info preferred = prefer_named true info preferred
prefer (some other_family) info preferred = preferred

unfoldable pub search : List Interface → Text → Text
search [] preferred = preferred
search (i ∷ interfaces) preferred = search interfaces (prefer i.family i.name_info preferred)

-- The third way. `none` is the exit of the process where `getifaddrs` fails.
unfoldable pub search_interfaces : Option (List Interface) → Option Text
search_interfaces none = none
search_interfaces (some interfaces) =
    let preferred : Text = search interfaces [] in
    some (if is_empty preferred then bytes "127.0.0.1" else preferred)

-- The second way, and then the third. `none` is also a write behind the 1024 bytes of `host`.
unfoldable pub try_hostname :
    Option Text → (Text → Option (List Text)) → Option (List Interface) → Option Text
try_hostname none gethostbyname interfaces = search_interfaces interfaces
try_hostname (some host) gethostbyname interfaces =
    if not (is_empty host) && not (text_eq (bytes "localhost") host)
    then if ltb 1024 (length host + 7)
      then none
      else elim (hostname_to_ip gethostbyname (host ++ bytes ".local")) [
        | none ↦ search_interfaces interfaces
        | some ip ↦ if is_private_ip ip then search_interfaces interfaces else some ip
      ]
    else search_interfaces interfaces

-- `ip_env` is the variable `IGN_IP`, `hostname` the result of `gethostname`.
unfoldable pub determine_host :
    Option Text → Option Text → (Text → Option (List Text)) → Option (List Interface) → Option Text
determine_host none hostname gethostbyname interfaces =
    try_hostname hostname gethostbyname interfaces
determine_host (some ip_env) hostname gethostbyname interfaces =
    if is_empty ip_env then try_hostname hostname gethostbyname interfaces else some ip_env
