-- ===== src/VpnClient/Program/Packets.antt =====
-- The client's packet handlers, VPN/src/client/vpn_client.c, for what they read in sizes that they can
-- process.
use Prim.Native.Nat.{min}
use cloud_service.Base.{
  ℕ, ltb→le, le→ltb, ◌+◌, ◌-◌, ◌<◌, ◌≤◌, ◌≡◌, ◌⊎◌, false, Option, none, some, inl, inr, List, [],
  ◌∷◌, ◌==◌, ltb, if_holds, arith, Bool-cases, Option-cases, length, take, drop, length-take,
  length-drop,
}
use cloud_service.Crypto.{Sodium, AeadLaws, crypto_decrypt, crypto_encrypt, crypto_nonce_size}
use cloud_service.Protocol.{Timeval, header_size, read_header, pkt_pong, pkt_data}
use cloud_service.VpnClient.{VpnClient, packet_size, handle_udp_to_tun, handle_tun_to_udp, on_data}
use cloud_service.VpnClient.Program.{Activity, select_failed, timed_out, readable, Inputs}
use cloud_service.Wire.{Bytes, Run, fault, done, ◌>>=◌}

abbrev pub Returns : {A : Type 0} → Run A → Type 0
Returns fault = ⊥
Returns (done a) = Unit

pub Returns-bind :
    {A B : Type 0} (r : Run A) (f : A → Run B)
    → Returns r
    → ((a : A) → Returns (f a))
    → Returns (r >>= f)
Returns-bind fault f h k = h
Returns-bind (done a) f h k = k a

-- A datagram without a whole header, or with room for a nonce behind it.
abbrev pub SafeDatagram : Bytes → Type 0
SafeDatagram datagram =
    (length datagram < header_size) ⊎ (header_size + crypto_nonce_size ≤ length datagram)

abbrev pub SafeRead : (Bytes → Type 0) → Option (Option Bytes) → Type 0
SafeRead Φ none = Unit
SafeRead Φ (some none) = Unit
SafeRead Φ (some (some bytes)) = Φ bytes

-- A packet of the interface has at most 2000 bytes, so that it fits the datagram sealed.
abbrev pub SafeActivity : Activity → Type 0
SafeActivity select_failed = Unit
SafeActivity timed_out = Unit
SafeActivity (readable udp tun) =
    SafeRead SafeDatagram udp × SafeRead (λ packet. length packet ≤ 2000) tun

unfoldable pub AllSafe : List Inputs → Type 0
AllSafe [] = Unit
AllSafe (i ∷ is) = SafeActivity i.activity × AllSafe is

module _ (s : Sodium) (laws : AeadLaws s) where
  on_data-Returns :
      (v : VpnClient) (c : Bytes)
      → crypto_nonce_size ≤ length c
      → length c ≤ packet_size
      → Returns (on_data s v c)
  unfolding on_data crypto_decrypt
  on_data-Returns v c le fits =
      let room : ltb (length c) crypto_nonce_size ≡ false = ground arith in
      rw room
        (elim (Option-cases
          (crypto_decrypt s (drop crypto_nonce_size c) v.session_key (take crypto_nonce_size c))) [
            | inl refused ↦ rw refused tt
            | inr (text, opened) ↦
                let size : length (drop crypto_nonce_size c) ≡ length text + 16 =
                  laws.decrypt_length v.session_key (take crypto_nonce_size c)
                    (drop crypto_nonce_size c) text opened in
                let small : ltb packet_size (length text) ≡ false =
                  ground (arith, size, length-drop crypto_nonce_size c) in
                rw (opened, small) tt
          ])

  pub handle_udp_to_tun-Returns :
      (v : VpnClient) (now : ℕ) (datagram : Bytes)
      → SafeDatagram datagram
      → Returns (handle_udp_to_tun s v now (some datagram))
  unfolding handle_udp_to_tun
  handle_udp_to_tun-Returns v now datagram safe =
      let got : Bytes = take packet_size datagram in
      let size : length got ≡ min packet_size (length datagram) =
        length-take packet_size datagram in
      elim (Bool-cases (ltb (length got) header_size)) [
        | inl short ↦ rw short tt
        | inr whole ↦
            let long : header_size ≤ length got = ltb→le (length got) header_size whole in
            let room : header_size + crypto_nonce_size ≤ length got =
              ground (arith, size, long, safe) in
            let left : length (drop header_size got) ≡ length got - header_size =
              length-drop header_size got in
            rw whole (
              if_holds Returns ((read_header got).type == pkt_pong) tt (
                if_holds Returns ((read_header got).type == pkt_data)
                  (on_data-Returns v (drop header_size got) (omega (arith, left, room))
                    (omega (arith, left, size)))
                  tt))
      ]

  pub handle_tun_to_udp-Returns :
      (v : VpnClient) (clock : Timeval) (nonce packet : Bytes)
      → length packet ≤ 2000
      → Returns (handle_tun_to_udp s v clock nonce (some packet))
  unfolding handle_tun_to_udp crypto_encrypt
  handle_tun_to_udp-Returns v clock nonce packet fits =
      let buffer : Bytes = take packet_size packet in
      let size : length buffer ≡ min packet_size (length packet) = length-take packet_size packet in
      elim (Option-cases (s.aead_encrypt v.session_key nonce buffer)) [
        | inl refused ↦ rw (refused, Returns, handle_tun_to_udp) tt
        | inr (sealed, e) ↦
            let grown : length sealed ≡ length buffer + 16 =
              laws.encrypt_length v.session_key nonce buffer sealed e in
            let fits' : ltb packet_size (crypto_nonce_size + length sealed) ≡ false =
              le→ltb packet_size (crypto_nonce_size + length sealed)
                (omega (arith, grown, size, fits)) in
            let fits'' : ltb packet_size (header_size + (crypto_nonce_size + (length buffer + 16)))
                ≡ false =
              le→ltb packet_size (header_size + (crypto_nonce_size + (length buffer + 16)))
                (omega (arith, size, fits)) in
            rw (e, Returns, handle_tun_to_udp, fits', fits'') tt
      ]
