-- ===== src/Packet/Tests.antt =====
-- Runs of the packet functions, and their theorems at concrete packets.
use uvudt.Common.{ℕ, ◌+◌, ◌*◌, ◌^◌, ◌≡◌, refl, none, some, List, [], ◌∷◌, arith}
use uvudt.Common.Int.{pos}
use uvudt.Packet.{Packet, Digest, create, pack, set_mac, chk_mac, mac_of}
use uvudt.Packet.Mac.{unsealed, chk_mac-set_mac}
use uvudt.Packet.Handshake.{HandShake, serialize, deserialize, deserialize-serialize}

-- A digest that counts bytes and keeps the key.
abbrev count_bytes : ℕ → List ℕ → Digest
count_bytes key [] = record { digest0 = key; digest1 = 0; digest2 = 0; digest3 = 0 }
count_bytes key (b ∷ bytes) =
    let rest = count_bytes key bytes in
    record { digest0 = rest.digest0; digest1 = rest.digest1 + 1; digest2 = 0; digest3 = 0 }

-- A keep-alive packet.
abbrev keep_alive : Packet
keep_alive = record {
  header = record { word0 = 0x8001_0000; word1 = 0; word2 = 0; word3 = 0; word4 = 0 };
  base = some (0 ∷ 0 ∷ 0 ∷ 0 ∷ []);
  len = 4;
}

-- The data packet 5, the only one of its message 9.
abbrev data_packet : Packet
data_packet = record {
  header = record { word0 = 5; word1 = 3 * 2 ^ 30 + 9; word2 = 0; word3 = 0; word4 = 0 };
  base = some (7 ∷ []);
  len = 1;
}

packed : pack create 1 none none 0 ≡ some keep_alive
unfolding pack create
packed = refl

chk_mac-set_mac_example :
    chk_mac count_bytes (set_mac count_bytes keep_alive 77) 77 ≡ (pos 1, unsealed keep_alive)
chk_mac-set_mac_example = (chk_mac-set_mac count_bytes 77 keep_alive (omega arith)).1

-- Another key does not pass.
chk_mac_other_key : (chk_mac count_bytes (set_mac count_bytes keep_alive 77) 78).0 ≡ pos 0
unfolding set_mac chk_mac mac_of
chk_mac_other_key = refl

abbrev request : HandShake
request = record {
  version = pos 4;
  type = pos 1;
  isn = pos 100;
  mss = pos 1500;
  flight_flag_size = pos 25600;
  req_type = pos 1;
  id = pos 7;
  cookie = pos 0;
  ip0 = pos 127;
  ip1 = pos 0;
  ip2 = pos 0;
  ip3 = pos 0;
}

deserialize-serialize_example :
    deserialize request (serialize request [] 48).words (serialize request [] 48).size
    ≡ some (pos 0, request)
deserialize-serialize_example = (deserialize-serialize request request [] 48).0 (omega arith)
