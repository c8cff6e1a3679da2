-- ===== src/NetUtils/Preference.antt =====
-- Which of the interfaces' addresses `determineHost` of src/NetUtils.cc takes.
use mathlib.Core.Path.{subst}
use ign_transport_git.Base.{
  ◌+◌, ltb, length, true, false, not, ◌||◌, ◌≡◌, refl, sym, ap, ◌∙◌, Option, none, some, List, [],
  ◌∷◌, ◌++◌, is_empty, find_if, get_or, if◌then◌else◌, Text, text_eq, bytes, arith, Bool-cases,
  Option-cases, inl, inr,
}
use ign_transport_git.TopicUtils.{has_char}
use ign_transport_git.NetUtils.{
  is_private_ip, Family, inet, inet6, other_family, Interface, prefer_ip, prefer_named, prefer,
  search, search_interfaces, starts_with, hostname_to_ip, try_hostname, determine_host,
}

-- What `getnameinfo` documents for numeric texts: they are not empty, and those of IPv6 have a colon.
abbrev pub IsNumeric : Option Family → Option Text → Type 0
IsNumeric family none = Unit
IsNumeric (some inet6) (some ip) = (is_empty ip ≡ false) × (has_char b':' ip ≡ true)
IsNumeric none (some ip) = is_empty ip ≡ false
IsNumeric (some inet) (some ip) = is_empty ip ≡ false
IsNumeric (some other_family) (some ip) = is_empty ip ≡ false

abbrev pub AreNumeric : List Interface → Type 0
AreNumeric [] = Unit
AreNumeric (i ∷ interfaces) = IsNumeric i.family i.name_info × AreNumeric interfaces

-- The texts of the IPv4 addresses that are not the loopback's.
abbrev pub candidate : Option Family → Option Text → List Text
candidate (some inet) (some ip) =
    if text_eq ip (bytes "127.0.0.1") || has_char b':' ip then [] else ip ∷ []
candidate (some inet) none = []
candidate none info = []
candidate (some inet6) info = []
candidate (some other_family) info = []

abbrev pub candidates : List Interface → List Text
candidates [] = []
candidates (i ∷ interfaces) = candidate i.family i.name_info ++ candidates interfaces

-- The first that is not private, or else the first; the empty text if there is none.
abbrev pub first_choice : List Text → Text
first_choice [] = []
first_choice (ip ∷ ips) = get_or (find_if (λ x. not (is_private_ip x)) (ip ∷ ips)) ip

abbrev choose : List Text → Text → Text
choose [] preferred = preferred
choose (ip ∷ ips) preferred = choose ips (prefer_ip false ip preferred)

-- One that is not private is kept.
choose_public :
    (ips : List Text) (p : Text) → is_empty p ≡ false → is_private_ip p ≡ false → choose ips p ≡ p
unfolding prefer_ip
choose_public [] p full public = refl
choose_public (ip ∷ ips) p full public =
    let rest = choose_public ips p full public in ground (arith, full, public, rest)

abbrev AreFull : List Text → Type 0
AreFull [] = Unit
AreFull (ip ∷ ips) = (is_empty ip ≡ false) × AreFull ips

-- One that is private gives way to the first that is not.
choose_private :
    (ips : List Text) (p : Text)
    → AreFull ips
    → is_empty p ≡ false
    → is_private_ip p ≡ true
    → choose ips p ≡ get_or (find_if (λ ip. not (is_private_ip ip)) ips) p
unfolding prefer_ip find_if
choose_private [] p fs full private = refl
choose_private (ip ∷ ips) p fs full private = elim (Bool-cases (is_private_ip ip)) [
  | inl e ↦ rw (e, full) (choose_private ips p fs.1 full private)
  | inr e ↦ rw (e, full, private) (choose_public ips ip fs.0 e)
]

private_nil : is_private_ip [] ≡ false
unfolding is_private_ip starts_with
private_nil = refl

choose_lem : (ips : List Text) → AreFull ips → choose ips [] ≡ first_choice ips
unfolding prefer_ip find_if
choose_lem [] fs = refl
choose_lem (ip ∷ ips) fs = elim (Bool-cases (is_private_ip ip)) [
  | inl e ↦ rw e (choose_private ips ip fs.1 fs.0 e)
  | inr e ↦ rw (e, private_nil) (choose_public ips ip fs.0 e)
]

choose-candidate :
    (family : Option Family) (info : Option Text) (ips : List Text) (p : Text)
    → IsNumeric family info
    → choose (candidate family info ++ ips) p ≡ choose ips (prefer family info p)
unfolding prefer prefer_named
choose-candidate none info ips p h = refl
choose-candidate (some inet) none ips p h = refl
choose-candidate (some inet) (some ip) ips p h =
    elim (Bool-cases (text_eq ip (bytes "127.0.0.1") || has_char b':' ip)) [
      | inl e ↦ rw e
      | inr e ↦ rw e
    ]
choose-candidate (some inet6) none ips p h = refl
choose-candidate (some inet6) (some ip) ips p h =
    elim (Bool-cases (text_eq ip (bytes "127.0.0.1"))) [ inl e ↦ rw e | inr e ↦ rw (e, h.1) ]
choose-candidate (some other_family) info ips p h = refl

search_lem :
    (interfaces : List Interface) (p : Text)
    → AreNumeric interfaces
    → search interfaces p ≡ choose (candidates interfaces) p
unfolding search
search_lem [] p h = refl
search_lem (i ∷ interfaces) p h =
    search_lem interfaces (prefer i.family i.name_info p) h.1
    ∙ sym (choose-candidate i.family i.name_info (candidates interfaces) p h.0)

candidate-AreFull :
    (family : Option Family) (info : Option Text) (ips : List Text)
    → IsNumeric family info
    → AreFull ips
    → AreFull (candidate family info ++ ips)
candidate-AreFull none info ips h fs = fs
candidate-AreFull (some inet) none ips h fs = fs
candidate-AreFull (some inet) (some ip) ips h fs =
    elim (Bool-cases (text_eq ip (bytes "127.0.0.1") || has_char b':' ip)) [
      | inl e ↦ rw e fs
      | inr e ↦ rw e (h, fs)
    ]
candidate-AreFull (some inet6) info ips h fs = fs
candidate-AreFull (some other_family) info ips h fs = fs

candidates-AreFull :
    (interfaces : List Interface) → AreNumeric interfaces → AreFull (candidates interfaces)
candidates-AreFull [] h = tt
candidates-AreFull (i ∷ interfaces) h =
    candidate-AreFull i.family i.name_info _ h.0 (candidates-AreFull interfaces h.1)

-- What the interfaces give, the loopback if nothing else.
abbrev pub fallback : List Interface → Text
fallback interfaces =
    let ip : Text = first_choice (candidates interfaces) in
    if is_empty ip then bytes "127.0.0.1" else ip

search_interfaces_lem :
    (interfaces : List Interface)
    → AreNumeric interfaces
    → search_interfaces (some interfaces) ≡ some (fallback interfaces)
unfolding search_interfaces
search_interfaces_lem interfaces h =
    let e : search interfaces [] ≡ first_choice (candidates interfaces) =
      search_lem interfaces [] h ∙ choose_lem _ (candidates-AreFull interfaces h) in
    ap (λ ip. some (if is_empty ip then bytes "127.0.0.1" else ip)) e

-- `determineHost` where `IGN_IP` is not set and the hostname resolves to a private address or not at
-- all: it returns, and gives the first of the interfaces' IPv4 addresses other than 127.0.0.1 that is
-- not private, or else the first of them, or else 127.0.0.1. The hostname has at most 1017 bytes, is
-- not empty and not localhost; the texts of addresses are not empty, and have a colon for IPv6.
pub determine_host_lem :
    (host : Text) (gethostbyname : Text → Option (List Text)) (interfaces : List Interface)
    → is_empty host ≡ false
    → text_eq (bytes "localhost") host ≡ false
    → ltb 1024 (length host + 7) ≡ false
    → is_private_ip (get_or (hostname_to_ip gethostbyname (host ++ bytes ".local")) (bytes "10."))
      ≡ true
    → AreNumeric interfaces
    → determine_host none (some host) gethostbyname (some interfaces) ≡ some (fallback interfaces)
unfolding determine_host try_hostname
determine_host_lem host gethostbyname interfaces full named short private h =
    elim (Option-cases (hostname_to_ip gethostbyname (host ++ bytes ".local"))) [
      | inl e ↦ rw (full, named, short) (rw (e, try_hostname) (search_interfaces_lem interfaces h))
      | inr (ip, e) ↦
          let p : is_private_ip ip ≡ true =
            subst (λ o. is_private_ip (get_or o (bytes "10.")) ≡ true) e private in
          rw (full, named, short) (rw (e, try_hostname) (rw p (search_interfaces_lem interfaces h)))
    ]
