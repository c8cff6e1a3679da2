-- ===== src/NodeShared/Receive/Numbers.antt =====
-- The numbers in the control messages of src/NodeShared.cc: `std::to_string` and `std::stoi`.
use ign_transport_git.Base.{ℕ, ◌^◌, ◌<◌, false, ◌≡◌, some, arith}
use ign_transport_git.NodeShared.Receive.{
  skip_space, read_digits, read_int, read_sign, stoi, to_string,
}

-- `stoi` reads back the number that `to_string` wrote, for every `uint8_t`.
pub stoi-to_string : (n : ℕ) → n < 2 ^ 8 → stoi (to_string n) ≡ some (false, n)
unfolding stoi to_string skip_space read_sign read_int read_digits
stoi-to_string n h = ground arith
