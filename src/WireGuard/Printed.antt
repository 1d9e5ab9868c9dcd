-- ===== src/WireGuard/Printed.antt =====
-- Printing a WireGuard configuration, and reading it back.
mod Examples
use hiddify_core.Prelude.{String, ◌≡◌, refl, ap, sym, ◌∙◌, List, [], ◌∷◌, ◌++◌, map, All, ok, done}
use mathlib.Core.List.{append-nil, append_assoc as list_append_assoc}
use hiddify_core.WireGuard.{WireGuardConfig, empty_config, read_lines, read_wire_guard_config}
use hiddify_core.WireGuard.Entries.{
  entry, Trimmed, read_lines-in, no_section, interface-header, peer-header, private_key-entry,
  dns-entry, address-entry, public_key-entry, allowed_ips-entry, endpoint-entry,
}

abbrev pub print : WireGuardConfig → List String
print c =
    "[Interface]"
    ∷ entry "PrivateKey" c.interface.private_key
    ∷ entry "DNS" c.interface.dns
    ∷ (map (entry "Address") c.interface.address
        ++ ("[Peer]"
            ∷ entry "PublicKey" c.peer.public_key
            ∷ (map (entry "AllowedIPs") c.peer.allowed_ips
                ++ (entry "Endpoint" c.peer.endpoint ∷ []))))

pub record AllTrimmed (c : WireGuardConfig) : Type 0 where
  pub private_key : Trimmed c.interface.private_key
  pub dns : Trimmed c.interface.dns
  pub address : All Trimmed c.interface.address
  pub public_key : Trimmed c.peer.public_key
  pub allowed_ips : All Trimmed c.peer.allowed_ips
  pub endpoint : Trimmed c.peer.endpoint

with_address : WireGuardConfig → List String → WireGuardConfig
with_address c vs = record c {
  interface = record (c.interface) { address = c.interface.address ++ vs };
}

with_allowed_ips : WireGuardConfig → List String → WireGuardConfig
with_allowed_ips c vs = record c {
  peer = record (c.peer) { allowed_ips = c.peer.allowed_ips ++ vs };
}

read_lines-address :
    (c : WireGuardConfig) (vs : List String) (ls : List String)
    → All Trimmed vs
    → read_lines "Interface" c (map (entry "Address") vs ++ ls)
      ≡ read_lines "Interface" (with_address c vs) ls
unfolding with_address
read_lines-address c [] ls h =
    ap
      (λ xs.
        read_lines "Interface" (record c { interface = record (c.interface) { address = xs } }) ls)
      (sym (append-nil c.interface.address))
read_lines-address c (a ∷ vs) ls h =
    read_lines-in "Interface" c (entry "Address" a) _ (with_address c (a ∷ []))
      (no_section "A" "ddress" a refl) (address-entry c a h.0)
    ∙ (read_lines-address (with_address c (a ∷ [])) vs ls h.1
        ∙ ap
            (λ xs.
              read_lines "Interface"
                (record c { interface = record (c.interface) { address = xs } }) ls)
            (list_append_assoc c.interface.address (a ∷ []) vs))

read_lines-allowed_ips :
    (c : WireGuardConfig) (vs : List String) (ls : List String)
    → All Trimmed vs
    → read_lines "Peer" c (map (entry "AllowedIPs") vs ++ ls)
      ≡ read_lines "Peer" (with_allowed_ips c vs) ls
unfolding with_allowed_ips
read_lines-allowed_ips c [] ls h =
    ap (λ xs. read_lines "Peer" (record c { peer = record (c.peer) { allowed_ips = xs } }) ls)
      (sym (append-nil c.peer.allowed_ips))
read_lines-allowed_ips c (a ∷ vs) ls h =
    read_lines-in "Peer" c (entry "AllowedIPs" a) _ (with_allowed_ips c (a ∷ []))
      (no_section "A" "llowedIPs" a refl) (allowed_ips-entry c a h.0)
    ∙ (read_lines-allowed_ips (with_allowed_ips c (a ∷ [])) vs ls h.1
        ∙ ap (λ xs. read_lines "Peer" (record c { peer = record (c.peer) { allowed_ips = xs } }) ls)
            (list_append_assoc c.peer.allowed_ips (a ∷ []) vs))

-- A configuration whose values have no white space at their ends is read back from its lines, with all
-- its addresses and allowed networks in their order.
pub read_wire_guard_config-print :
    (c : WireGuardConfig) → AllTrimmed c → read_wire_guard_config (ok (print c)) ≡ done c
unfolding read_wire_guard_config with_address with_allowed_ips
read_wire_guard_config-print c h =
    let i = c.interface in
    let p = c.peer in
    let c₁ = record empty_config {
      interface = record (empty_config.interface) { private_key = i.private_key };
    } in
    let c₂ = record c₁ { interface = record (c₁.interface) { dns = i.dns } } in
    let c₃ = with_address c₂ i.address in
    let c₄ = record c₃ { peer = record (c₃.peer) { public_key = p.public_key } } in
    let c₅ = with_allowed_ips c₄ p.allowed_ips in
    let ls₅ = entry "Endpoint" p.endpoint ∷ [] in
    let ls₄ = map (entry "AllowedIPs") p.allowed_ips ++ ls₅ in
    let ls₃ = entry "PublicKey" p.public_key ∷ ls₄ in
    let ls₂ = map (entry "Address") i.address ++ ("[Peer]" ∷ ls₃) in
    let ls₁ = entry "DNS" i.dns ∷ ls₂ in
    interface-header "" empty_config (entry "PrivateKey" i.private_key ∷ ls₁)
    ∙ (read_lines-in "Interface" empty_config (entry "PrivateKey" i.private_key) ls₁ c₁
          (no_section "P" "rivateKey" i.private_key refl)
          (private_key-entry empty_config i.private_key h.private_key)
        ∙ (read_lines-in "Interface" c₁ (entry "DNS" i.dns) ls₂ c₂ (no_section "D" "NS" i.dns refl)
              (dns-entry c₁ i.dns h.dns)
            ∙ (read_lines-address c₂ i.address ("[Peer]" ∷ ls₃) h.address
                ∙ (peer-header "Interface" c₃ ls₃
                    ∙ (read_lines-in "Peer" c₃ (entry "PublicKey" p.public_key) ls₄ c₄
                          (no_section "P" "ublicKey" p.public_key refl)
                          (public_key-entry c₃ p.public_key h.public_key)
                        ∙ (read_lines-allowed_ips c₄ p.allowed_ips ls₅ h.allowed_ips
                            ∙ read_lines-in "Peer" c₅ (entry "Endpoint" p.endpoint) [] c
                                (no_section "E" "ndpoint" p.endpoint refl)
                                (endpoint-entry c₅ p.endpoint h.endpoint)))))))
