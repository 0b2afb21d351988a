-- ===== src/Api/Urls.antt =====
-- The peer URLs of lootcoin-node/src/api.rs. The parser is that of the crate url: a parameter, and a
-- URL is what the code reads of its result.
use lootcoin.Base.{
  ℕ, ◌/◌, ◌≡◌, Bool, true, false, ◌&&◌, ◌||◌, not, Bytes, bytes_eq, bytes_beq, nat_eq, List, [],
  ◌∷◌, ◌++◌, Option, none, some, leb, ◌==◌, if◌then◌else◌, arith,
}

-- `url::Host`; an IPv6 address by its eight segments.
pub data Host : Type 0 where
  domain : Bytes → Host
  ipv4 : ℕ → ℕ → ℕ → ℕ → Host
  ipv6 : ℕ → List ℕ → Host

pub record Url : Type 0 where
  pub scheme : Bytes
  pub host : Option Host
  pub host_str : Option Bytes
  pub port : Option ℕ

-- `Url::parse` of a trimmed text, `str::to_lowercase`, `str::ends_with(".localhost")` and the printing
-- of a port.
pub record UrlLib : Type 0 where
  pub parse : Bytes → Option Url
  pub to_lowercase : Bytes → Bytes
  pub ends_with_localhost : Bytes → Bool
  pub print_port : ℕ → Bytes

-- "http", "https", "localhost", "://", ":"
abbrev pub http : Bytes
http = 104 ∷ 116 ∷ 116 ∷ 112 ∷ []

abbrev pub https : Bytes
https = 104 ∷ 116 ∷ 116 ∷ 112 ∷ 115 ∷ []

abbrev pub localhost : Bytes
localhost = 108 ∷ 111 ∷ 99 ∷ 97 ∷ 108 ∷ 104 ∷ 111 ∷ 115 ∷ 116 ∷ []

abbrev pub scheme_separator : Bytes
scheme_separator = 58 ∷ 47 ∷ 47 ∷ []

abbrev pub port_separator : Bytes
port_separator = 58 ∷ []

-- All the segments that are left are zero, but the last, which is one.
unfoldable pub ends_in_one : List ℕ → Bool
ends_in_one [] = false
ends_in_one (x ∷ []) = x == 1
ends_in_one (x ∷ y ∷ xs) = x == 0 && ends_in_one (y ∷ xs)

module _ (lib : UrlLib) where
  unfoldable pub build_peer_origin : Url → Option Bytes
  build_peer_origin parsed =
      let default_port : ℕ = if bytes_beq parsed.scheme http then 80 else 443 in
      elim parsed.host_str [
        | none ↦ none
        | some host_str ↦
            let origin = parsed.scheme ++ scheme_separator ++ host_str in
            some (elim parsed.port [
              | none ↦ origin
              | some p ↦
                  if p == default_port then origin else origin ++ port_separator ++ lib.print_port p
            ])
      ]

  -- The hosts that the strict variant turns away. A mask of the first segment is written as its
  -- leading bits: seven of 0xfc00, ten of 0xfe80.
  unfoldable pub is_internal : Host → Bool
  is_internal (domain name) =
      let lower = lib.to_lowercase name in
      bytes_beq lower localhost || lib.ends_with_localhost lower
  is_internal (ipv4 a b c d) =
      a == 127
      || a == 10
      || (a == 172 && leb 16 b && leb b 31)
      || (a == 192 && b == 168)
      || (a == 169 && b == 254)
  is_internal (ipv6 first_segment rest) =
      ends_in_one (first_segment ∷ rest) || first_segment / 512 == 126 || first_segment / 64 == 1018

  unfoldable pub canonicalize_peer_url_inner : Bytes → Bool → Option Bytes
  canonicalize_peer_url_inner raw_url trusted = elim (lib.parse raw_url) [
    | none ↦ none
    | some parsed ↦
        if not (bytes_beq parsed.scheme http) && not (bytes_beq parsed.scheme https)
        then none
        else elim parsed.host [
          | none ↦ none
          | some host ↦
              if trusted
              then build_peer_origin parsed
              else if is_internal host
              then none
              else build_peer_origin parsed
        ]
  ]

  unfoldable pub canonicalize_peer_url : Bytes → Option Bytes
  canonicalize_peer_url raw_url = canonicalize_peer_url_inner raw_url false

  unfoldable pub canonicalize_peer_url_trusted : Bytes → Option Bytes
  canonicalize_peer_url_trusted raw_url = canonicalize_peer_url_inner raw_url true

  -- The host that a text parses to.
  abbrev pub host_of : Bytes → Option Host
  host_of raw_url = elim (lib.parse raw_url) [ none ↦ none | some parsed ↦ parsed.host ]

  -- The strict variant gives what the trusted one gives, except that it turns away the hosts of the
  -- loopback, private and link-local ranges, which the trusted one takes.
  pub canonicalize_peer_url_lem :
      (raw_url : Bytes)
      → canonicalize_peer_url raw_url ≡ elim (host_of raw_url) [
        | none ↦ none
        | some host ↦ if is_internal host then none else canonicalize_peer_url_trusted raw_url
      ]
  unfolding canonicalize_peer_url canonicalize_peer_url_trusted canonicalize_peer_url_inner
  canonicalize_peer_url_lem raw_url = ground arith

  -- Two texts that parse to the same scheme and host name, and to ports that are the same or the
  -- scheme's default, name the same peer.
  pub build_peer_origin-default_port :
      (parsed : Url) (p : ℕ)
      → parsed.port ≡ some p
      → p ≡ (if bytes_beq parsed.scheme http then 80 else 443)
      → build_peer_origin parsed ≡ build_peer_origin (record parsed { port = none })
  unfolding build_peer_origin
  build_peer_origin-default_port parsed p e d = ground arith
