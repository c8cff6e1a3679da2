-- ===== src/Tests/Hosts.antt =====
-- Addresses of src/NetUtils.cc and identifiers of src/Uuid.cc.
use ign_transport_git.Base.{
  ℕ, zero, suc, ◌<◌, ◌^◌, ◌≡◌, ◌↔◌, refl, some, none, [], ◌∷◌, List, Option, replicate, length,
  Text, text_eq, bytes, arith, find_if,
}
use ign_transport_git.TopicUtils.{has_char}
use ign_transport_git.NetUtils.{
  Interface, inet, inet6, is_private_ip, starts_with, hostname_to_ip, determine_host,
}
use ign_transport_git.NetUtils.Preference.{determine_host_lem}
use ign_transport_git.Uuid.{to_string}
use ign_transport_git.Uuid.Distinct.{AreBytes, to_string-injective}

abbrev interfaces : List Interface
interfaces =
    record { family = some inet; name_info = some (bytes "127.0.0.1") }
    ∷ record { family = some inet6; name_info = some (bytes "fe80::1") }
    ∷ record { family = some inet; name_info = some (bytes "10.0.0.7") }
    ∷ record { family = some inet; name_info = some (bytes "8.8.4.4") }
    ∷ []

abbrev unknown : Text → Option (List Text)
unknown hostname = none

determine_host_lem_example :
    determine_host none (some (bytes "robot")) unknown (some interfaces) ≡ some (bytes "8.8.4.4")
unfolding text_eq has_char hostname_to_ip is_private_ip starts_with find_if
determine_host_lem_example =
    determine_host_lem (bytes "robot") unknown interfaces refl refl refl refl
      (refl, ((refl, refl), (refl, (refl, tt))))

abbrev zeros : List ℕ
zeros = replicate 16 0

abbrev ones : List ℕ
ones = replicate 16 255

AreBytes-replicate : (n b : ℕ) → b < 2 ^ 8 → AreBytes (replicate n b)
AreBytes-replicate zero b h = tt
AreBytes-replicate (suc n) b h = (h, AreBytes-replicate n b h)

to_string-injective_example :
    (length (to_string zeros) ≡ 36) × ((to_string zeros ≡ to_string ones) ↔ (zeros ≡ ones))
to_string-injective_example =
    to_string-injective zeros ones refl refl (AreBytes-replicate 16 0 (omega arith))
      (AreBytes-replicate 16 255 (omega arith))
