-- ===== src/System/IpPacket.antt =====
-- print_ip_packet of VPN/src/server/tun_manager.c: the text that it prints. `inet_ntoa` is a parameter.
use cloud_service.Base.{
  ℕ, ◌+◌, ◌/◌, ◌%◌, [], ◌∷◌, ◌++◌, ◌==◌, ltb, length, if◌then◌else◌, take, get_or,
}
use cloud_service.Text.{codes, decimal}
use cloud_service.Wire.{Bytes, load32}

-- `sizeof(struct iphdr)`
abbrev pub ip_header_size : ℕ
ip_header_size = 20

abbrev hex_digit : ℕ → ℕ
hex_digit n = if ltb n 10 then 48 + n else 87 + n

-- `%02x` of a byte
abbrev pub two_hex : ℕ → Bytes
two_hex n = hex_digit (n / 16) ∷ hex_digit (n % 16) ∷ []

-- the loop over the first bytes, from index `i` on
unfoldable pub hex_bytes : ℕ → Bytes → Bytes
hex_bytes i [] = []
hex_bytes i (b ∷ bs) =
    (two_hex b ++ codes " ")
    ++ ((if (i + 1) % 16 == 0 then codes "\n        " else []) ++ hex_bytes (i + 1) bs)

abbrev pub protocol_name : ℕ → Bytes
protocol_name p =
    if p == 1
    then codes "(ICMP)\n"
    else if p == 6
    then codes "(TCP)\n"
    else if p == 17
    then codes "(UDP)\n"
    else codes "(Other)\n"

module _ (inet_ntoa : ℕ → Bytes) where
  unfoldable pub print_ip_packet : Bytes → Bytes
  unfolding hex_bytes
  print_ip_packet packet =
      if ltb (length packet) ip_header_size
      then codes "Packet too short (" ++ (decimal (length packet) ++ codes " bytes)\n")
      else codes "IP Packet ("
        ++ (decimal (length packet)
            ++ (codes " bytes):\n   Version: "
                ++ (decimal (get_or packet 0 0 / 16)
                    ++ (codes "\n   Protocol: "
                        ++ (decimal (get_or packet 9 0)
                            ++ (codes " "
                                ++ (protocol_name (get_or packet 9 0)
                                    ++ (codes "   Src: "
                                        ++ (inet_ntoa (load32 packet 12)
                                            ++ (codes "\n   Dst: "
                                                ++ (inet_ntoa (load32 packet 16)
                                                    ++ (codes "\n   TTL: "
                                                        ++ (decimal (get_or packet 8 0)
                                                            ++ (codes "\n   Hex: "
                                                            ++ (hex_bytes 0 (take 32 packet)
                                                            ++ codes "\n")))))))))))))))
