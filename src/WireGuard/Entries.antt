-- ===== src/WireGuard/Entries.antt =====
-- One line of a WireGuard configuration, and what reading it changes.
use Prim.Native.Char.{Char, code}
use Prim.Native.String.append
use Prim.Native.String.{◌++◌ as append_text}
use hiddify_core.Prelude.{
  String, ◌≡◌, refl, ap, ◌∙◌, true, false, List, [], ◌∷◌, ◌++◌, nat_eq, if◌then◌else◌, done, none,
}
use hiddify_core.Config.Text.{
  has_prefix, strip_prefix, has_suffix, drop_last, second_part, trim_space, trim_left, trim_right,
  is_space,
}
use hiddify_core.Config.Text.Joining.{lacks}
use hiddify_core.Config.Text.Trimming.{append_assoc, found, has_prefix-append, split_first-append}
use hiddify_core.WireGuard.{
  WireGuardConfig, trimmed, value_of, parse_interface_config, parse_peer_config, section_name,
  parse_line, read_lines,
}

abbrev pub entry : String → String → String
entry key v = append_text (append_text key " ") (String.◌∷◌ "=" (String.◌∷◌ " " v))

-- No white space at its ends.
abbrev pub Trimmed : String → Type 0
Trimmed v = trim_space v ≡ v

-- Of another first character.
other_prefix :
    (c d : Char) (x p t : String)
    → nat_eq (code d) (code c) ≡ false
    → has_prefix (append_text (append_text (String.◌∷◌ c x) " ") t) (String.◌∷◌ d p) ≡ false
unfolding has_prefix strip_prefix
other_prefix c d x p t h =
    rw (append.cons c x " ", append.cons c (append_text x " ") t)
      (ap (λ b. found (if b then strip_prefix p (append_text (append_text x " ") t) else none)) h)

own_prefix : (key t : String) → has_prefix (append_text (append_text key " ") t) key ≡ true
own_prefix key t =
    ap (λ s. has_prefix s key) (append_assoc key " " t) ∙ has_prefix-append key (append_text " " t)

behind_blank : (v : String) → trim_space (String.◌∷◌ " " v) ≡ trim_space v
unfolding trim_left is_space
behind_blank v = refl

value_of-entry :
    (key v : String)
    → lacks "=" (append_text key " ") ≡ true
    → Trimmed v
    → value_of (entry key v) ≡ done v
value_of-entry key v l h =
    ap (λ xs. trimmed (second_part xs))
      (split_first-append "=" (append_text key " ") (String.◌∷◌ " " v) l)
    ∙ ap done (behind_blank v ∙ h)

-- A line in a section is read by the section's parser.
pub read_lines-in :
    (section : String) (c : WireGuardConfig) (line : String) (ls : List String)
    (c' : WireGuardConfig)
    → has_prefix line "[" ≡ false
    → parse_line section c line ≡ done c'
    → read_lines section c (line ∷ ls) ≡ read_lines section c' ls
unfolding read_lines
read_lines-in section c line ls c' h e = rw (h, e) refl

abbrev rest_of : String → String
rest_of v = String.◌∷◌ "=" (String.◌∷◌ " " v)

module _ (c : WireGuardConfig) (v : String) (h : Trimmed v) where
  pub private_key-entry :
      parse_line "Interface" c (entry "PrivateKey" v)
      ≡ done (record c { interface = record (c.interface) { private_key = v } })
  unfolding parse_interface_config
  private_key-entry =
      rw (own_prefix "PrivateKey" (rest_of v), value_of-entry "PrivateKey" v refl h) refl

  pub dns-entry :
      parse_line "Interface" c (entry "DNS" v)
      ≡ done (record c { interface = record (c.interface) { dns = v } })
  unfolding parse_interface_config
  dns-entry =
      rw
        (
          other_prefix "D" "P" "NS" "rivateKey" (rest_of v) refl,
          own_prefix "DNS" (rest_of v),
          value_of-entry "DNS" v refl h,
        )
        refl

  pub address-entry :
      parse_line "Interface" c (entry "Address" v)
      ≡ done (record c {
        interface = record (c.interface) { address = c.interface.address ++ v ∷ [] };
      })
  unfolding parse_interface_config
  address-entry =
      rw
        (
          other_prefix "A" "P" "ddress" "rivateKey" (rest_of v) refl,
          other_prefix "A" "D" "ddress" "NS" (rest_of v) refl,
          own_prefix "Address" (rest_of v),
          value_of-entry "Address" v refl h,
        )
        refl

  pub public_key-entry :
      parse_line "Peer" c (entry "PublicKey" v)
      ≡ done (record c { peer = record (c.peer) { public_key = v } })
  unfolding parse_peer_config
  public_key-entry =
      rw (own_prefix "PublicKey" (rest_of v), value_of-entry "PublicKey" v refl h) refl

  pub allowed_ips-entry :
      parse_line "Peer" c (entry "AllowedIPs" v)
      ≡ done (record c { peer = record (c.peer) { allowed_ips = c.peer.allowed_ips ++ v ∷ [] } })
  unfolding parse_peer_config
  allowed_ips-entry =
      rw
        (
          other_prefix "A" "P" "llowedIPs" "ublicKey" (rest_of v) refl,
          own_prefix "AllowedIPs" (rest_of v),
          value_of-entry "AllowedIPs" v refl h,
        )
        refl

  pub endpoint-entry :
      parse_line "Peer" c (entry "Endpoint" v)
      ≡ done (record c { peer = record (c.peer) { endpoint = v } })
  unfolding parse_peer_config
  endpoint-entry =
      rw
        (
          other_prefix "E" "P" "ndpoint" "ublicKey" (rest_of v) refl,
          other_prefix "E" "A" "ndpoint" "llowedIPs" (rest_of v) refl,
          own_prefix "Endpoint" (rest_of v),
          value_of-entry "Endpoint" v refl h,
        )
        refl

pub no_section :
    (c : Char) (x v : String)
    → nat_eq (code "[") (code c) ≡ false
    → has_prefix (entry (String.◌∷◌ c x) v) "[" ≡ false
no_section c x v h = other_prefix c "[" x "" (rest_of v) h

read_lines-section :
    (section name : String) (c : WireGuardConfig) (line : String) (ls : List String)
    → has_prefix line "[" ≡ true
    → has_suffix line "]" ≡ true
    → section_name line ≡ name
    → read_lines section c (line ∷ ls) ≡ read_lines name c ls
unfolding read_lines
read_lines-section section name c line ls p s e = rw (p, s, e) refl

pub interface-header :
    (section : String) (c : WireGuardConfig) (ls : List String)
    → read_lines section c ("[Interface]" ∷ ls) ≡ read_lines "Interface" c ls
unfolding has_prefix strip_prefix has_suffix drop_last trim_left trim_right is_space
interface-header section c ls =
    read_lines-section section "Interface" c "[Interface]" ls refl refl refl

pub peer-header :
    (section : String) (c : WireGuardConfig) (ls : List String)
    → read_lines section c ("[Peer]" ∷ ls) ≡ read_lines "Peer" c ls
unfolding has_prefix strip_prefix has_suffix drop_last trim_left trim_right is_space
peer-header section c ls = read_lines-section section "Peer" c "[Peer]" ls refl refl refl
