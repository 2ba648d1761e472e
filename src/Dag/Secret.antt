-- ===== src/Dag/Secret.antt =====
-- internal/dag/secret.go: which Kubernetes secrets the cache accepts. PEM decoding and the x509
-- parsers are not part of the repository: they are the fields of `Crypto`.
pub mod Bundles
pub mod Keys
pub mod Verdicts
pub mod Tests
use sesame.Common.{
  ◌==◌, nat_eq, string_eq, Bytes, bytes_eq, ltb, if◌then◌else◌, length, take, ℕ, zero, suc, ◌+◌,
  ◌-◌, ◌/◌, ◌<◌, ◌≡◌, Bool, true, false, not, ◌&&◌, ◌||◌, Option, none, some, List, [], ◌∷◌,
}
use sesame.Common.Text.{bytes, has_prefix, contains, is_empty, trim_space}
use sesame.Common.Assoc.{Map, lookup}

pub record Block : Type 0 where
  pub block_type : Bytes
  pub content : Bytes

-- what the source reads of an x509.Certificate
pub record Certificate : Type 0 where
  pub common_name : Bytes
  pub dns_names : List Bytes
  pub ip_addresses : List Bytes

-- `decode` is pem.Decode: the next block and the rest of the input, which is shorter; `none` is a
-- nil block. A parser answers `none` or `false` where it returns an error.
pub record Crypto : Type 0 where
  pub decode : Bytes → Option (Block × Bytes)
  pub decode_shorter :
      (d : Bytes) (b : Block) (rest : Bytes) → decode d ≡ some (b, rest) → length rest < length d
  pub parse_certificate : Bytes → Option Certificate
  pub parse_pkcs8 : Bytes → Bool
  pub parse_pkcs1 : Bytes → Bool
  pub parse_ec : Bytes → Bool

-- `out_of_fuel` is no error of the source: the loops below never return it.
pub data SecretError : Type 0 where
  missing_certificate missing_key zero_length_ca : SecretError
  bad_block no_certificate no_name no_key many_keys out_of_fuel : SecretError
  unexpected_block : Bytes → SecretError
  bad_certificate bad_key : SecretError

-- bytes.Index
index : Bytes → Bytes → Option ℕ
index sub [] = if is_empty sub then some 0 else none
index sub (c ∷ s) =
    let later = index sub s in
    if has_prefix (c ∷ s) sub then some 0 else elim later [ none ↦ none | some i ↦ some (suc i) ]

drop : ℕ → Bytes → Bytes
drop zero s = s
drop (suc n) [] = []
drop (suc n) (c ∷ s) = drop n s

unfoldable pub contains_pem_header : Bytes → Bool
unfolding index drop has_prefix contains
contains_pem_header d = elim (index (bytes "-----BEGIN") d) [
  | none ↦ false
  | some start ↦ elim (index (bytes "-----") (drop (start + 10) d)) [
    | none ↦ false
    | some end ↦ not (contains (take end (drop start d)) (10 ∷ []))
  ]
]

has_common_name : Certificate → Bool
unfolding trim_space
has_common_name c = not (is_empty (trim_space c.common_name))

has_subject_alt_names : Certificate → Bool
has_subject_alt_names c = ltb 0 (length c.dns_names) || ltb 0 (length c.ip_addresses)

abbrev pub certificate_type : Bytes
certificate_type = bytes "CERTIFICATE"

module _ (crypto : Crypto) where
  -- the loop of validateServingBundle; `i` counts the certificates, and `exists` is `0 < i`
  serving_loop : ℕ → ℕ → Bytes → Option SecretError
  serving_loop zero i d = some out_of_fuel
  serving_loop (suc fuel) i d = elim (contains_pem_header d) [
    | false ↦ if i == 0 then some no_certificate else none
    | true ↦ elim (crypto.decode d) [
      | none ↦ some bad_block
      | some (b, rest) ↦ elim (b.block_type == certificate_type) [
        | false ↦ some (unexpected_block b.block_type)
        | true ↦ elim (crypto.parse_certificate b.content) [
          | none ↦ some bad_certificate
          | some cert ↦
              elim (i == 0 && (not (has_common_name cert) && not (has_subject_alt_names cert))) [
                | true ↦ some no_name
                | false ↦ serving_loop fuel (suc i) rest
              ]
        ]
      ]
    ]
  ]

  unfoldable pub validate_serving_bundle : Bytes → Option SecretError
  unfolding serving_loop has_common_name has_subject_alt_names
  validate_serving_bundle d = serving_loop (suc (length d)) 0 d

  ca_loop : ℕ → Bool → Bytes → Option SecretError
  ca_loop zero exists d = some out_of_fuel
  ca_loop (suc fuel) exists d = elim (contains_pem_header d) [
    | false ↦ if exists then none else some no_certificate
    | true ↦ elim (crypto.decode d) [
      | none ↦ some bad_block
      | some (b, rest) ↦ elim (b.block_type == certificate_type) [
        | false ↦ some (unexpected_block b.block_type)
        | true ↦ ca_loop fuel true rest
      ]
    ]
  ]

  unfoldable pub validate_ca_bundle : Bytes → Option SecretError
  unfolding ca_loop
  validate_ca_bundle d = ca_loop (suc (length d)) false d

  -- The switch on the type of a block: return, count a key, or ignore the block. The first two
  -- cases return the error of the parser where there is none, as the source does.
  pub data KeyStep : Type 0 where
    stop : Option SecretError → KeyStep
    count skip : KeyStep

  unfoldable pub key_step : Block → KeyStep
  key_step b =
      if b.block_type == bytes "PRIVATE KEY"
      then (if crypto.parse_pkcs8 b.content then stop none else count)
      else if b.block_type == bytes "RSA PRIVATE KEY"
      then (if crypto.parse_pkcs1 b.content then stop none else count)
      else if b.block_type == bytes "EC PRIVATE KEY"
      then (if crypto.parse_ec b.content then count else stop (some bad_key))
      else if b.block_type == bytes "EC PARAMETERS"
      then skip
      else stop (some (unexpected_block b.block_type))

  key_loop : ℕ → ℕ → Bytes → Option SecretError
  key_loop zero keys d = some out_of_fuel
  key_loop (suc fuel) keys d = elim (contains_pem_header d) [
    | false ↦ if keys == 0 then some no_key else if keys == 1 then none else some many_keys
    | true ↦ elim (crypto.decode d) [
      | none ↦ some bad_block
      | some (b, rest) ↦ elim (key_step b) [
        | stop e ↦ e
        | count ↦ key_loop fuel (suc keys) rest
        | skip ↦ key_loop fuel keys rest
      ]
    ]
  ]

  unfoldable pub validate_private_key : Bytes → Option SecretError
  unfolding key_loop key_step
  validate_private_key d = key_loop (suc (length d)) 0 d
