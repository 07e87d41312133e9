-- ===== src/Clients/Print.antt =====
-- What the server prints of its clients: print_client_info and print_client_table of
-- VPN/src/server/client_manager.c. A text is a list of code points; `inet_ntoa` is a parameter, and
-- `now` is the answer of `time(NULL)` for each slot.
use cloud_service.Base.{
  ℕ, ◌+◌, ◌-◌, ◌≡◌, refl, arith, List, [], ◌∷◌, ◌++◌, ◌==◌, ltb, length, if◌then◌else◌,
}
use cloud_service.Clients.{ClientEntry, ClientTable, is_active, max_clients}
use cloud_service.Clients.Invariant.{IsValid}
use cloud_service.Slots.{count_if}
use cloud_service.Text.{codes, decimal}
use cloud_service.Wire.{Bytes, htons}

-- `%ld` of `time(NULL) - client->last_seen`
abbrev seconds_since : ℕ → ℕ → Bytes
seconds_since now last_seen =
    if ltb now last_seen then codes "-" ++ decimal (last_seen - now) else decimal (now - last_seen)

-- the blocks, one after the other
unfoldable printed : List Bytes → Bytes
printed [] = []
printed (b ∷ bs) = b ++ printed bs

module _ (inet_ntoa : ℕ → Bytes) (now : ℕ → ℕ) where
  unfoldable print_client_info : ℕ → ClientEntry → Bytes
  print_client_info i client = printed (
      codes "   VPN IP:     "
      ∷ inet_ntoa client.vpn_ip
      ∷ codes "\n   Real Addr:  "
      ∷ inet_ntoa client.real_addr.sin_addr
      ∷ codes ":"
      ∷ decimal (htons client.real_addr.sin_port)
      ∷ codes "\n   Session ID: "
      ∷ decimal client.session_id
      ∷ codes "\n   Last Seen:  "
      ∷ seconds_since (now i) client.last_seen
      ∷ codes " seconds ago\n"
      ∷ [])

  -- the loop over the slots, from slot `i` on
  unfoldable client_blocks : ℕ → List ClientEntry → List Bytes
  client_blocks i [] = []
  client_blocks i (e ∷ es) =
      let rest = client_blocks (i + 1) es in
      if e.active
      then (codes "Client #"
          ++ (decimal i ++ (codes ":\n" ++ (print_client_info i e ++ codes "\n"))))
        ∷ rest
      else rest

  unfoldable print_client_table : ClientTable → Bytes
  print_client_table t = printed (
      codes "\n━━━ Client Table ━━━\nActive Clients: "
      ∷ decimal t.count
      ∷ codes " / "
      ∷ decimal max_clients
      ∷ codes "\n"
      ∷ (if t.count == 0
          then codes "(No active clients)\n"
          else codes "\n"
            ++ (printed (client_blocks 0 t.clients) ++ codes "━━━━━━━━━━━━━━━━━━━━\n\n"))
      ∷ [])

  -- From any slot on, one block is printed for each active client.
  length-client_blocks :
      (i : ℕ) (es : List ClientEntry) → length (client_blocks i es) ≡ count_if is_active es
  unfolding client_blocks count_if
  length-client_blocks i [] = refl
  length-client_blocks i (e ∷ es) = ground (arith, length-client_blocks (i + 1) es)

  -- In a well-formed table, the number that is printed as the active clients is the number of the
  -- blocks that are printed for them.
  length-client_blocks_count :
      (t : ClientTable) → IsValid t → length (client_blocks 0 t.clients) ≡ t.count
  length-client_blocks_count t w = omega (arith, length-client_blocks 0 t.clients, w.counted)
