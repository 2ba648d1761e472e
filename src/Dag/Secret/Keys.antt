-- ===== src/Dag/Secret/Keys.antt =====
-- internal/dag/secret.go: what validatePrivateKey accepts.
use sesame.Common.{
  ◌==◌, ==_iff, nat_eq, string_eq, list_beq, Bytes, bytes_eq, if◌then◌else◌, length, All, ℕ, zero,
  suc, ◌+◌, ◌<◌, ◌≡◌, ◌↔◌, ◌⊎◌, inl, inr, Bool, true, false, none, some, List, [], ◌∷◌, arith,
}
use sesame.Common.Text.{bytes}
use sesame.Dag.Secret.{
  Block, Crypto, bad_key, contains_pem_header, key_step, key_loop, stop, count, skip,
  validate_private_key,
}
use sesame.Dag.Secret.Bundles.{Blocks, done, more}

abbrev block : Bytes → Bytes → Block
block t c = record { block_type = t; content = c }

abbrev ec_type : Bytes
ec_type = bytes "EC PRIVATE KEY"

module _ (crypto : Crypto) where
  module _ (t c : Bytes) where
    step_pkcs8 :
        t ≡ bytes "PRIVATE KEY"
        → key_step crypto (block t c) ≡ (if crypto.parse_pkcs8 c then stop none else count)
    unfolding key_step list_beq
    step_pkcs8 e = rw e

    step_pkcs1 :
        t ≡ bytes "RSA PRIVATE KEY"
        → key_step crypto (block t c) ≡ (if crypto.parse_pkcs1 c then stop none else count)
    unfolding key_step list_beq
    step_pkcs1 e = rw e

    step_ec :
        t ≡ ec_type
        → key_step crypto (block t c) ≡ (if crypto.parse_ec c then count else stop (some bad_key))
    unfolding key_step list_beq
    step_ec e = rw e

    step_parameters :
        t ≡ bytes "EC PARAMETERS" → (key_step crypto (block t c) ≡ skip) × ((t == ec_type) ≡ false)
    unfolding key_step list_beq
    step_parameters e = (rw e, rw e)

  step_rsa :
      (b : Block)
      → (b.block_type ≡ bytes "PRIVATE KEY") ⊎ (b.block_type ≡ bytes "RSA PRIVATE KEY")
      → (key_step crypto b ≡ stop none) ⊎ (key_step crypto b ≡ count)
  step_rsa b (inl e) = ground (arith, step_pkcs8 b.block_type b.content e)
  step_rsa b (inr e) = ground (arith, step_pkcs1 b.block_type b.content e)

  no_header_ends :
      (fuel : ℕ) (d : Bytes)
      → contains_pem_header d ≡ false
      → 0 < fuel
      → key_loop crypto fuel 1 d ≡ none
  unfolding key_loop
  no_header_ends zero d h p = absurd (omega arith)
  no_header_ends (suc fuel) d h p = ground arith

  -- A text whose one block is a PKCS #8 or a PKCS #1 key is accepted, whether or not the parser
  -- can read the key: the source returns early where there is no error, and counts the block
  -- where there is one.
  pub lone_rsa_key_accepted :
      (d rest : Bytes) (b : Block)
      → contains_pem_header d ≡ true
      → crypto.decode d ≡ some (b, rest)
      → contains_pem_header rest ≡ false
      → (b.block_type ≡ bytes "PRIVATE KEY") ⊎ (b.block_type ≡ bytes "RSA PRIVATE KEY")
      → validate_private_key crypto d ≡ none
  unfolding validate_private_key
  lone_rsa_key_accepted d rest b has found last type =
      let room : length rest < length d = crypto.decode_shorter d b rest found in
      ground (arith, step_rsa b type, no_header_ends (length d) rest last (omega arith))

  abbrev pub IsEc : Block → Type 0
  IsEc b = (b.block_type ≡ ec_type) ⊎ (b.block_type ≡ bytes "EC PARAMETERS")

  abbrev is_ec_key : Block → Bool
  is_ec_key b = b.block_type == ec_type

  abbrev pub ec_keys : List Block → ℕ
  ec_keys [] = 0
  ec_keys (b ∷ bs) = if is_ec_key b then suc (ec_keys bs) else ec_keys bs

  abbrev pub Parses : Block → Type 0
  Parses b = is_ec_key b ≡ true → crypto.parse_ec b.content ≡ true

  step_of_IsEc :
      (b : Block)
      → IsEc b
      → key_step crypto b ≡ (
          if is_ec_key b
          then (if crypto.parse_ec b.content then count else stop (some bad_key))
          else skip)
  step_of_IsEc b (inl e) = rw ((==_iff b.block_type ec_type).1 e) (step_ec b.block_type b.content e)
  step_of_IsEc b (inr e) =
      let (skipped, other) = step_parameters b.block_type b.content e in rw other skipped

  ec_loop_iff :
      (fuel keys : ℕ) {d : Bytes} {bs : List Block}
      → length d < fuel
      → Blocks crypto d bs
      → All IsEc bs
      → (key_loop crypto fuel keys d ≡ none) ↔ (All Parses bs × (keys + ec_keys bs ≡ 1))
  unfolding key_loop
  ec_loop_iff zero keys h blocks ec = absurd (omega arith)
  ec_loop_iff (suc fuel) keys h (done last) ec = ground arith
  ec_loop_iff (suc fuel) keys {d} h (more {rest = rest} {b = b} has found blocks) ec =
      let room : length rest < fuel = omega (arith, crypto.decode_shorter d b rest found) in
      ground (
        arith,
        step_of_IsEc b ec.0,
        ec_loop_iff fuel (suc keys) room blocks ec.1,
        ec_loop_iff fuel keys room blocks ec.1,
      )

  -- Where every block is an EC key or EC parameters, the text is accepted exactly when it holds
  -- one key, and the key parses.
  pub ec_key_accepted_iff :
      (d : Bytes) (bs : List Block)
      → Blocks crypto d bs
      → All IsEc bs
      → (validate_private_key crypto d ≡ none) ↔ (All Parses bs × (ec_keys bs ≡ 1))
  unfolding validate_private_key
  ec_key_accepted_iff d bs blocks ec =
      let (to, from) = ec_loop_iff (suc (length d)) 0 (omega arith) blocks ec in
      (λ e. ((to e).0, omega (arith, (to e).1)), λ h. from (h.0, omega (arith, h.1)))
